-- ===== src/FlashblocksRpc/Overlay.antt =====
-- `FlashblocksOverlay` of crates/flashblocks-rpc/src/flashblocks.rs: the frames of the publisher of
-- flashblocks, what is read from them, and how the connection is made again. Decoding UTF-8,
-- decompressing and parsing JSON are parameters.
pub mod Backoff
use rollup_boost.Prelude.{
  ℕ, ◌*◌, Bool, true, false, List, [], ◌∷◌, ◌++◌, Option, none, some, min, if◌then◌else◌, nat_beq,
  leb, ◌&&◌, ◌||◌,
}
use rollup_boost.Flashblocks.{FlashblocksPayloadV1}
use rollup_boost.Sockets.{Message, text, binary, ping, pong, close, Frame, message, failure, ended}

-- `char::is_whitespace`.
abbrev pub is_whitespace : ℕ → Bool
is_whitespace c =
    (leb 9 c && leb c 13)
    || (nat_beq c 32
        || (nat_beq c 133
            || (nat_beq c 160
                || (nat_beq c 5760
                    || ((leb 8192 c && leb c 8202)
                        || (nat_beq c 8232
                            || (nat_beq c 8233
                                || (nat_beq c 8239 || (nat_beq c 8287 || nat_beq c 12288)))))))))

-- `text.trim_start().starts_with("{")`.
unfoldable pub starts_with_brace : List ℕ → Bool
starts_with_brace [] = false
starts_with_brace (c ∷ cs) =
    let rest = starts_with_brace cs in if is_whitespace c then rest else nat_beq c 123

abbrev pub and_then : {A B : Type 0} → Option A → (A → Option B) → Option B
and_then none f = none
and_then (some a) f = f a

-- What a connection attempt comes to: an error, or the frames that are read.
pub data Connection : Type 0 where
  refused : Connection
  established : List (Frame (Unit {0})) → Connection

-- Durations in seconds.
abbrev pub max_backoff : ℕ
max_backoff = 10

module _ (from_utf8 : List ℕ → Option (List ℕ)) (decompress : List ℕ → Option (List ℕ))
    (from_str : List ℕ → Option FlashblocksPayloadV1) where
  abbrev pub braced : Option (List ℕ) → Option (List ℕ)
  braced none = none
  braced (some t) = if starts_with_brace t then some t else none

  abbrev pub or_decompressed : Option (List ℕ) → List ℕ → Option (List ℕ)
  or_decompressed (some t) bytes = some t
  or_decompressed none bytes = and_then (decompress bytes) from_utf8

  unfoldable pub try_parse_message : List ℕ → Option (List ℕ)
  unfolding starts_with_brace
  try_parse_message bytes = or_decompressed (braced (from_utf8 bytes)) bytes

  unfoldable pub try_decode_message : List ℕ → Option FlashblocksPayloadV1
  unfolding try_parse_message
  try_decode_message bytes = and_then (try_parse_message bytes) from_str

  abbrev pub push :
      Option FlashblocksPayloadV1 → List FlashblocksPayloadV1 → List FlashblocksPayloadV1
  push none ps = ps
  push (some p) ps = p ∷ ps

  -- The loop over the frames of a connection: the flashblocks sent to the task of the cache.
  unfoldable pub read_frames : List (Frame (Unit {0})) → List FlashblocksPayloadV1
  unfolding try_decode_message
  read_frames [] = []
  read_frames (message (binary bytes) ∷ fs) = push (try_decode_message bytes) (read_frames fs)
  read_frames (message close ∷ fs) = []
  read_frames (message (text bytes) ∷ fs) = read_frames fs
  read_frames (message (ping bytes) ∷ fs) = read_frames fs
  read_frames (message (pong bytes) ∷ fs) = read_frames fs
  read_frames (failure e ∷ fs) = []
  read_frames (ended ∷ fs) = []

  -- The loop over connections from a backoff on: the flashblocks received, the times slept, and the
  -- backoff then.
  unfoldable pub receive_all : List Connection → ℕ → List FlashblocksPayloadV1 × List ℕ × ℕ
  unfolding read_frames
  receive_all [] backoff = ([], [], backoff)
  receive_all (refused ∷ cs) backoff =
      let rest = receive_all cs (min (backoff * 2) max_backoff) in
      (rest.0, backoff ∷ rest.1, rest.2)
  receive_all (established fs ∷ cs) backoff =
      let rest = receive_all cs backoff in (read_frames fs ++ rest.0, rest.1, rest.2)
