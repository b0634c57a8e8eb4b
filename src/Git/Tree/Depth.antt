-- ===== src/Git/Tree/Depth.antt =====
-- The order of the second loop: a child directory comes before its parent.
use ctxfs.Common.{
  ℕ, ◌+◌, ◌≡◌, ◌≢◌, sym, ap, true, false, [], ◌∷◌, ◌++◌, Text, text_key, arith, All, none,
}
use ctxfs.Common.Assoc.{lookup, Distinct}
use ctxfs.Common.Sort.{IsOrder, Pairwise, sort_by, Pairwise-sort_by}
use ctxfs.Git.Tree.{depth, deeper, child_path, keys_of, Children}

depth-append : (a b : Text) → depth (a ++ b) ≡ depth a + depth b
unfolding depth
depth-append [] b = omega arith
depth-append (c ∷ a) b = omega (arith, depth-append a b)

-- A child's path comes before its parent's, if the child has a name.
pub deeper-child_path :
    (path : Text) (c : ℕ) (cs : Text) → deeper (child_path path (c ∷ cs)) path ≡ true
unfolding deeper child_path depth
deeper-child_path [] c cs = ground arith
deeper-child_path (d ∷ ds) c cs = ground (arith, depth-append ds (b'/' ∷ c ∷ cs))

deeper_irrefl : (path : Text) → deeper path path ≡ false
unfolding deeper
deeper_irrefl path = ground arith

pub child_path-ne : (path : Text) (c : ℕ) (cs : Text) → child_path path (c ∷ cs) ≢ path
child_path-ne path c cs e =
    cc (deeper-child_path path c cs, ap (λ p. deeper p path) e, deeper_irrefl path)

-- In the processed order: the later one is another path, and does not come before the earlier.
abbrev pub IsEarlier : Text → Text → Type 0
IsEarlier a b = (deeper b a ≡ false) × (a ≢ b)

abbrev pub IsOther : Text → Text → Type 0
IsOther a b = a ≢ b

deeper-IsOrder : IsOrder deeper IsEarlier IsOther
unfolding deeper
deeper-IsOrder = record {
  turned = λ x y o h. o (sym h);
  later = λ x y o h. (ground arith, λ e. o (sym e));
  here = λ x y o h. (h, o);
  past = λ x y z o h r. (ground (arith, r.0), o);
}

pub absent-keys :
    (key : Text) (dirs : Children) → lookup key dirs ≡ none → All (IsOther key) (keys_of dirs)
unfolding lookup
absent-keys key [] h = tt
absent-keys key ((j, l) ∷ dirs) h = (λ e. ground arith, absent-keys key dirs (ground arith))

Distinct-keys : (dirs : Children) → Distinct dirs → Pairwise IsOther (keys_of dirs)
Distinct-keys [] d = tt
Distinct-keys ((j, l) ∷ dirs) d = (absent-keys j dirs d.0, Distinct-keys dirs d.1)

pub sorted_keys-IsEarlier :
    (dirs : Children) → Distinct dirs → Pairwise IsEarlier (sort_by deeper (keys_of dirs))
sorted_keys-IsEarlier dirs d =
    Pairwise-sort_by deeper IsEarlier IsOther deeper-IsOrder (keys_of dirs) (Distinct-keys dirs d)
