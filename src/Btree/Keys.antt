-- ===== src/Btree/Keys.antt =====
-- cmp_keys of shared/btree.c. A key is the list of its bytes, so its size is the list's length.
use Prim.Native.Nat.{min, compare, Ordering}
use ngnfs_progs.Prelude.Words.{sub16}
use ngnfs_progs.Prelude.{
  ℕ, suc, ◌≤◌, ◌==◌, ltb, if◌then◌else◌, ◌≡◌, refl, ◌≢◌, List, [], ◌∷◌, arith, length,
}

abbrev pub Bytes : Type 0
Bytes = List ℕ

-- The sign of the `int` that a comparison returns; memcmp promises no more than the sign.
pub data Sign : Type 0 where
  less same greater : Sign

abbrev pub flip : Sign → Sign
flip less = greater
flip same = same
flip greater = less

abbrev sign : ℕ → ℕ → Sign
sign a b = elim (compare a b) [ Ordering.lt ↦ less | Ordering.eq ↦ same | Ordering.gt ↦ greater ]

-- memcmp over the first `n` bytes.
memcmp : Bytes → Bytes → ℕ → Sign
memcmp (x ∷ a) (y ∷ b) (suc n) = elim (sign x y) [
  | same ↦ memcmp a b n
  | less ↦ less
  | greater ↦ greater
]
memcmp _ _ _ = same

-- `memcmp(...) ?: size_b - size_a`: with equal bytes, the sign of size_b - size_a.
unfoldable pub cmp_keys : Bytes → Bytes → Sign
unfolding memcmp
cmp_keys a b = elim (memcmp a b (min (length a) (length b))) [
  | same ↦ sign (length b) (length a)
  | less ↦ less
  | greater ↦ greater
]

-- The sign of an s16 that holds size_b - size_a, for u16 sizes.
abbrev sign_s16 : ℕ → ℕ → Sign
sign_s16 b a = let d = sub16 b a in if d == 0 then same else if ltb d 32768 then greater else less

-- The sign of an s16 that holds the result of cmp_keys. What memcmp returns is taken to fit.
unfoldable pub cmp_keys_s16 : Bytes → Bytes → Sign
unfolding memcmp
cmp_keys_s16 a b = elim (memcmp a b (min (length a) (length b))) [
  | same ↦ sign_s16 (length b) (length a)
  | less ↦ less
  | greater ↦ greater
]

abbrev pub s16_max : ℕ
s16_max = 32767

-- Sizes that an s16 holds have such a difference.
pub cmp_keys_s16-cmp_keys :
    (a b : Bytes) → length a ≤ s16_max → length b ≤ s16_max → cmp_keys_s16 a b ≡ cmp_keys a b
unfolding cmp_keys_s16 cmp_keys
cmp_keys_s16-cmp_keys a b p q = ground arith

-- The same order, byte by byte: of two keys where one is a prefix, the longer is the lesser.
pub lexicographic : Bytes → Bytes → Sign
lexicographic [] [] = same
lexicographic [] (y ∷ b) = greater
lexicographic (x ∷ a) [] = less
lexicographic (x ∷ a) (y ∷ b) = elim (sign x y) [
  | same ↦ lexicographic a b
  | less ↦ less
  | greater ↦ greater
]

-- min unfolds by one on two sizes that are not zero.
min-suc-suc : (m n : ℕ) → min (suc m) (suc n) ≡ suc (min m n)
min-suc-suc m n = omega arith

-- cmp_keys decides the byte-by-byte order in which the longer of two keys with a common prefix
-- comes first.
pub cmp_keys-lexicographic : (a b : Bytes) → cmp_keys a b ≡ lexicographic a b
unfolding cmp_keys lexicographic
cmp_keys-lexicographic [] [] = refl
cmp_keys-lexicographic [] (y ∷ b) = ground arith
cmp_keys-lexicographic (x ∷ a) [] = ground arith
cmp_keys-lexicographic (x ∷ a) (y ∷ b) =
    rw (cmp_keys, min-suc-suc (length a) (length b)) (ground (arith, cmp_keys-lexicographic a b))

lexicographic_refl : (a : Bytes) → lexicographic a a ≡ same
unfolding lexicographic
lexicographic_refl [] = refl
lexicographic_refl (x ∷ a) = ground (arith, lexicographic_refl a)

lexicographic-flip : (a b : Bytes) → lexicographic b a ≡ flip (lexicographic a b)
unfolding lexicographic
lexicographic-flip [] [] = refl
lexicographic-flip [] (y ∷ b) = refl
lexicographic-flip (x ∷ a) [] = refl
lexicographic-flip (x ∷ a) (y ∷ b) = ground (arith, lexicographic-flip a b)

eq_of_same : (a b : Bytes) → lexicographic a b ≡ same → a ≡ b
unfolding lexicographic
eq_of_same [] [] h = refl
eq_of_same [] (y ∷ b) h = cc
eq_of_same (x ∷ a) [] h = cc
eq_of_same (x ∷ a) (y ∷ b) h = ground (arith, eq_of_same a b)

less_trans :
    (a b c : Bytes) → lexicographic a b ≡ less → lexicographic b c ≡ less → lexicographic a c ≡ less
unfolding lexicographic
less_trans [] [] c h k = cc
less_trans [] (y ∷ b) c h k = cc
less_trans (x ∷ a) [] [] h k = refl
less_trans (x ∷ a) [] (z ∷ c) h k = cc
less_trans (x ∷ a) (y ∷ b) [] h k = refl
less_trans (x ∷ a) (y ∷ b) (z ∷ c) h k = ground (arith, less_trans a b c)

pub cmp_keys_refl : (a : Bytes) → cmp_keys a a ≡ same
cmp_keys_refl a = rw cmp_keys-lexicographic (lexicographic_refl a)

pub cmp_keys-flip : (a b : Bytes) → cmp_keys b a ≡ flip (cmp_keys a b)
cmp_keys-flip a b =
    rw (cmp_keys-lexicographic b a, cmp_keys-lexicographic a b) (lexicographic-flip a b)

pub eq_of_cmp_keys : (a b : Bytes) → cmp_keys a b ≡ same → a ≡ b
eq_of_cmp_keys a b h = eq_of_same a b (rw (cmp_keys-lexicographic a b) at h)

pub cmp_keys_trans :
    (a b c : Bytes) → cmp_keys a b ≡ less → cmp_keys b c ≡ less → cmp_keys a c ≡ less
cmp_keys_trans a b c h k =
    rw (cmp_keys-lexicographic a c) (
      less_trans a b c (rw (cmp_keys-lexicographic a b) at h)
        (rw (cmp_keys-lexicographic b c) at k))

pub cmp_keys_irrefl : (a : Bytes) → cmp_keys a a ≢ less
cmp_keys_irrefl a h = cc (cmp_keys_refl a)
