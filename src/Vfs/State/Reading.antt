-- ===== src/Vfs/State/Reading.antt =====
-- `read`: the bytes of a file between an offset and a count.
use ctxfs.Common.{
  text_key, ◌⊎◌, inl, inr, ℕ, zero, suc, ap, Text, ◌+◌, ◌-◌, ◌<◌, ◌≤◌, ◌≡◌, refl, sym, ◌∙◌, Option,
  none, some, ok, List, [], ◌∷◌, arith, length, take, drop, min,
}
use ctxfs.Common.Assoc.{lookup}
use ctxfs.Common.Word.{u64_mod, add64, add64-eq}
use ctxfs.Cache.LinkedMap.{LinkedHashMap}
use ctxfs.Cache.State.{CacheEntry}
use ctxfs.Cache.Blob.{BlobCache, Bytes, Os, WriteOutcome}
use ctxfs.Vfs.Types.{Node}
use ctxfs.Vfs.Tables.{Tables, Provider, id_key}
use ctxfs.Vfs.State.{fetch_file_bytes, slice, read}

length-drop : (n : ℕ) (l : List ℕ) → length (drop n l) ≡ length l - n
length-drop zero l = omega arith
length-drop (suc n) [] = omega arith
length-drop (suc n) (x ∷ l) = omega (arith, length-drop n l)

take_short : (n m : ℕ) (l : List ℕ) → length l ≤ n → length l ≤ m → take n l ≡ take m l
take_short n m [] h k = take_nil n ∙ sym (take_nil m)
  where
    take_nil : (j : ℕ) → take {A = ℕ} j [] ≡ []
    take_nil zero = refl
    take_nil (suc j) = refl
take_short zero m (x ∷ l) h k = absurd (omega arith)
take_short (suc n) zero (x ∷ l) h k = absurd (omega arith)
take_short (suc n) (suc m) (x ∷ l) h k =
    ap (λ r. x ∷ r) (take_short n m l (omega arith) (omega arith))

drop_past : (n m : ℕ) (l : List ℕ) → length l ≤ n → length l ≤ m → drop n l ≡ drop m l
drop_past n m [] h k = drop_nil n ∙ sym (drop_nil m)
  where
    drop_nil : (j : ℕ) → drop {A = ℕ} j [] ≡ []
    drop_nil zero = refl
    drop_nil (suc j) = refl
drop_past zero m (x ∷ l) h k = absurd (omega arith)
drop_past (suc n) zero (x ∷ l) h k = absurd (omega arith)
drop_past (suc n) (suc m) (x ∷ l) h k = drop_past n m l (omega arith) (omega arith)

slice_fits :
    (content : Bytes) (offset count : ℕ)
    → offset + count < u64_mod
    → slice content offset count
      ≡ some (
          take
            (min (offset + count) (length content) - min offset (length content))
            (drop (min offset (length content)) content))
unfolding slice
slice_fits content offset count room = rw (add64-eq offset count room) (ground arith)

slice_wraps :
    (content : Bytes) (offset count : ℕ)
    → offset < u64_mod
    → count < u64_mod
    → u64_mod ≤ offset + count
    → offset + count - u64_mod < length content
    → slice content offset count ≡ none
unfolding slice add64
slice_wraps content offset count a b c d = ground arith

order : (a b : ℕ) → (a ≤ b) ⊎ (b ≤ a)
order a b = ground arith

drop-min : (n : ℕ) (l : List ℕ) → drop (min n (length l)) l ≡ drop n l
drop-min n l = elim (order n (length l)) [
  | inl le ↦ ap (λ j. drop j l) (omega arith)
  | inr ge ↦ drop_past (min n (length l)) n l (omega arith) ge
]

-- A count that is as large as what is left, or the count itself.
take_min :
    (a n : ℕ) (l : List ℕ) → (a ≡ n) ⊎ ((length l ≤ a) × (length l ≤ n)) → take a l ≡ take n l
take_min a n l (inl same) = ap (λ j. take j l) same
take_min a n l (inr (x, y)) = take_short a n l x y

piece :
    (content : Bytes) (offset count : ℕ)
    → take
        (min (offset + count) (length content) - min offset (length content))
        (drop (min offset (length content)) content)
      ≡ take count (drop offset content)
piece content offset count = rw (drop-min offset content) (
    take_min (min (offset + count) (length content) - min offset (length content)) count
      (drop offset content) (ground (arith, length-drop offset content)))

module _ (m : LinkedHashMap Text CacheEntry) (os : Os) (p : Provider) (outcome : WriteOutcome) where
  module _ (inode offset count : ℕ) (t : Tables) (c c' : BlobCache m) (n : Node)
      (content : Bytes) where
    read_slices :
        (r : Option Bytes)
        → lookup inode t.nodes ≡ some n
        → fetch_file_bytes m os p outcome c n.kind ≡ some (ok content, c')
        → slice content offset count ≡ r
        → read m os p outcome inode offset count t c
          ≡ elim r [ none ↦ none | some bytes ↦ some (ok bytes, c') ]
    unfolding read
    read_slices r here fetched is = ground arith

    -- `read` of a node whose bytes are fetched, at an offset and a count whose sum fits in 64 bits,
    -- returns the bytes from the offset on, at most the count of them, and never panics:
    -- past the end it returns fewer or none.
    pub read-take :
        lookup inode t.nodes ≡ some n
        → fetch_file_bytes m os p outcome c n.kind ≡ some (ok content, c')
        → offset + count < u64_mod
        → read m os p outcome inode offset count t c
          ≡ some (ok (take count (drop offset content)), c')
    read-take here fetched room =
        read_slices (some (take count (drop offset content))) here fetched
          (slice_fits content offset count room ∙ ap (λ l. some l) (piece content offset count))

    -- `read` panics where the 64-bit sum of the offset and the count wraps around and the
    -- file is longer than the wrapped sum, though an offset past the end asks for no byte.
    pub read-wraps :
        lookup inode t.nodes ≡ some n
        → fetch_file_bytes m os p outcome c n.kind ≡ some (ok content, c')
        → offset < u64_mod
        → count < u64_mod
        → u64_mod ≤ offset + count
        → offset + count - u64_mod < length content
        → read m os p outcome inode offset count t c ≡ none
    read-wraps here fetched a b wraps long =
        read_slices none here fetched (slice_wraps content offset count a b wraps long)
