-- ===== src/WsProxy/Labels.antt =====
-- `parse_global_metrics` of crates/websocket-proxy/src/main.rs: labels `name=value`, with commas
-- between.
use rollup_boost.Prelude.{
  ℕ, List, [], ◌∷◌, ◌++◌, Option, none, some, nat_beq, if◌then◌else◌, ◌≡◌, ◌≢◌, refl, ap, ◌∙◌, All,
  All-append, arith, Bool-cases, inl, inr,
}
use rollup_boost.Auth.{Text, split}
use rollup_boost.Auth.Split.{split_piece, split_last}

abbrev in_front : ℕ → Option (Text × Text) → Option (Text × Text)
in_front c none = none
in_front c (some (s, t)) = some (c ∷ s, t)

-- `splitn(2, '=')`, none where it gives one part.
unfoldable pub split_once : Text → Option (Text × Text)
split_once [] = none
split_once (c ∷ cs) =
    let rest = split_once cs in if nat_beq c 61 then some ([], cs) else in_front c rest

-- A label whose name or value is empty is left out, and so is a part without `=`.
abbrev pub push_label : Option (Text × Text) → List (Text × Text) → List (Text × Text)
push_label none ls = ls
push_label (some ([], v)) ls = ls
push_label (some (c ∷ n, [])) ls = ls
push_label (some (c ∷ n, d ∷ v)) ls = (c ∷ n, d ∷ v) ∷ ls

abbrev pub parse_parts : List Text → List (Text × Text)
parse_parts [] = []
parse_parts ([] ∷ ps) = parse_parts ps
parse_parts ((c ∷ cs) ∷ ps) = push_label (split_once (c ∷ cs)) (parse_parts ps)

unfoldable pub parse_global_metrics : Text → List (Text × Text)
unfolding split split_once
parse_global_metrics metrics = parse_parts (split 44 metrics)

abbrev pub print_label : Text × Text → Text
print_label l = l.0 ++ (61 ∷ l.1)

abbrev pub print_labels : List (Text × Text) → Text
print_labels [] = []
print_labels (l ∷ []) = print_label l
print_labels (l ∷ (m ∷ ls)) = print_label l ++ (44 ∷ print_labels (m ∷ ls))

-- A name without `=` and comma and a value without comma, neither of them empty.
abbrev pub IsLabel : Text × Text → Type 0
IsLabel l =
    (l.0 ≢ []) × (l.1 ≢ []) × All (λ c. c ≢ 61) l.0 × All (λ c. c ≢ 44) l.0 × All (λ c. c ≢ 44) l.1

split_once-print : (n v : Text) → All (λ c. c ≢ 61) n → split_once (n ++ (61 ∷ v)) ≡ some (n, v)
unfolding split_once
split_once-print [] v h = refl
split_once-print (c ∷ cs) v h = elim (Bool-cases (nat_beq c 61)) [
  | inl e ↦ absurd (h.0 (ground (arith, e)))
  | inr e ↦ rw (e) (ap (in_front c) (split_once-print cs v h.1))
]

parse_parts-print :
    (l : Text × Text) (ps : List Text)
    → IsLabel l
    → parse_parts (print_label l ∷ ps) ≡ l ∷ parse_parts ps
parse_parts-print ([], v) ps h = absurd (h.0 refl)
parse_parts-print (c ∷ n, []) ps h = absurd (h.1 refl)
parse_parts-print (c ∷ n, d ∷ v) ps h =
    ap (λ o. push_label o (parse_parts ps)) (split_once-print (c ∷ n) (d ∷ v) h.2)

print_label-HasNoComma : (l : Text × Text) → IsLabel l → All (λ c. c ≢ 44) (print_label l)
print_label-HasNoComma l h = All-append (λ c. c ≢ 44) l.0 (61 ∷ l.1) h.3 (ground arith, h.4)

-- Labels that are printed with commas between them are read back as they are.
pub parse_global_metrics-print :
    (l : Text × Text) (ls : List (Text × Text))
    → IsLabel l
    → All IsLabel ls
    → parse_global_metrics (print_labels (l ∷ ls)) ≡ l ∷ ls
unfolding parse_global_metrics
parse_global_metrics-print l [] h k =
    ap parse_parts (split_last 44 (print_label l) (print_label-HasNoComma l h))
    ∙ parse_parts-print l [] h
parse_global_metrics-print l (m ∷ ls) h k =
    ap parse_parts
      (split_piece 44 (print_label l) (print_labels (m ∷ ls)) (print_label-HasNoComma l h))
    ∙ parse_parts-print l (split 44 (print_labels (m ∷ ls))) h
    ∙ ap (λ z. l ∷ z) (parse_global_metrics-print m ls k.0 k.1)
