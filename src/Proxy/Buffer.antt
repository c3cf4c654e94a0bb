-- ===== src/Proxy/Buffer.antt =====
-- How the proxy buffers a body: readReplayableBody and peekAndRestore of internal/proxy/attempt.go. A
-- reader has the bytes that are left to read, and whether an error follows them in place of the end.
pub mod Restored
use squall.Common.{
  ℕ, ◌+◌, ◌-◌, Bool, true, false, ◌&&◌, Option, none, some, List, [], ◌∷◌, ◌++◌, ◌==◌, ltb, length,
  if◌then◌else◌,
}

pub record Reader : Type 0 where
  pub bytes : List ℕ
  pub breaks : Bool

abbrev pub take : ℕ → List ℕ → List ℕ
take n [] = []
take n (x ∷ xs) = let rest = take (n - 1) xs in if n == 0 then [] else x ∷ rest

abbrev pub drop : ℕ → List ℕ → List ℕ
drop n [] = []
drop n (x ∷ xs) = let rest = drop (n - 1) xs in if n == 0 then x ∷ xs else rest

-- io.ReadAll of an io.LimitReader, `none` for an error, and what is left of the reader.
unfoldable pub read_up_to : ℕ → Reader → Option (List ℕ) × Reader
read_up_to limit r =
    if r.breaks && ltb (length r.bytes) limit
    then (none, record r { bytes = [] })
    else (some (take limit r.bytes), record r { bytes = drop limit r.bytes })

-- io.MultiReader of bytes and a reader.
abbrev pub before : List ℕ → Reader → Reader
before peeked r = record r { bytes = peeked ++ r.bytes }

abbrev peeked_from : Option (List ℕ) × Reader → Option (List ℕ) × Reader
peeked_from (none, left) = (none, left)
peeked_from (some peeked, left) = (some peeked, before peeked left)

-- peekAndRestore of a response with a body.
unfoldable pub peek_and_restore : ℕ → Reader → Option (List ℕ) × Reader
unfolding read_up_to
peek_and_restore limit r = peeked_from (read_up_to limit r)

abbrev buffered_from : Option (List ℕ) × Reader → (Option (List ℕ) × Bool) × Reader
buffered_from (none, left) = ((none, false), left)
buffered_from (some buf, left) =
    if ltb 4194304 (length buf)
    then ((none, false), before buf left)
    else ((some buf, true), record { bytes = buf; breaks = false })

-- readReplayableBody of a request with a body: the body, whether it may be sent again, and what r.Body
-- reads then. The bound is maxReplayableBody.
unfoldable pub read_replayable_body : Reader → (Option (List ℕ) × Bool) × Reader
unfolding read_up_to
read_replayable_body r = buffered_from (read_up_to 4194305 r)
