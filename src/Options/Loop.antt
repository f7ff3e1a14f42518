-- ===== src/Options/Loop.antt =====
-- The loop of getopt_long_more of shared/options.c applies the caller's function to each option.
use ngnfs_progs.Prelude.{
  ℕ, zero, suc, ◌≡◌, ◌≢◌, ◌⊎◌, ◌==◌, ◌&&◌, ◌||◌, if◌then◌else◌, Option, none, some, List, [], ◌∷◌,
  refl, arith, inl, inr, Bool-cases, Bool, true, false, sym, ◌∙◌, subst,
}
use ngnfs_progs.Prelude.Errno.{Errno, Ret, ok, err, einval, Ret-cases}
use ngnfs_progs.Prelude.Run.{Run, done, bug, Returns, Returns-bind}
use ngnfs_progs.Options.Parse.{Str, colon}
use ngnfs_progs.Options.Getopt.{
  OptionMore, Getopt, help_char, unknown_char, get_more, set_given, call_func, option_round,
  option_loop,
}

get_more-set_given :
    (i : ℕ) (moreopts : List OptionMore) (c : ℕ)
    → get_more (set_given i moreopts) c ≡ get_more moreopts c
unfolding get_more
get_more-set_given i [] c = refl
get_more-set_given zero (more ∷ rest) c = refl
get_more-set_given (suc i) (more ∷ rest) c =
    let later = get_more-set_given i rest c in rw (later, get_more) refl

-- What getopt_long returns: 'h', '?', or a character of the options, which for ':' is in optopt.
abbrev pub IsKnown : Getopt → List OptionMore → Type 0
IsKnown g moreopts =
    (g.c ≡ help_char)
    ⊎ ((g.c ≡ unknown_char) ⊎ (get_more moreopts (if g.c == colon then g.optopt else g.c) ≢ none))

abbrev pub AreKnown : List Getopt → List OptionMore → Type 0
AreKnown [] moreopts = Unit {0}
AreKnown (g ∷ gs) moreopts = IsKnown g moreopts × AreKnown gs moreopts

AreKnown-set_given :
    (gs : List Getopt) (i : ℕ) (moreopts : List OptionMore)
    → AreKnown gs moreopts
    → AreKnown gs (set_given i moreopts)
AreKnown-set_given [] i moreopts k = tt
AreKnown-set_given (g ∷ gs) i moreopts (k, ks) = (
  rw (get_more-set_given i moreopts (if g.c == colon then g.optopt else g.c)) k,
  AreKnown-set_given gs i moreopts ks,
)

pub ok-err : (n : ℕ) (e : Errno) → ok n ≢ err e
ok-err n e q = ground (arith, q)

module _ {A : Type 0} (func : A → ℕ → Str → Ret × A) where
  -- The caller's function applied to each option in turn.
  abbrev pub apply_options : List Getopt → A → A
  apply_options [] a = a
  apply_options (g ∷ gs) a = apply_options gs (func a g.c g.optarg).1

  -- An error, or the state `a`.
  abbrev pub FailsOr : A → Ret × List OptionMore × A → Type 0
  FailsOr a r = ((e : Errno) × (r.0 ≡ err e)) ⊎ (r.2 ≡ a)

  Round : List Getopt → A → Ret × List OptionMore × A → Type 0
  Round gs a r = FailsOr a r × AreKnown gs r.1

  call_func-Round :
      (gs : List Getopt) (more : Option ℕ) (r : Ret × A) (moreopts : List OptionMore)
      → more ≢ none
      → AreKnown gs moreopts
      → Returns (call_func func more r moreopts) (Round gs r.1)
  unfolding Round
  call_func-Round gs none r moreopts some_ k = absurd (some_ refl)
  call_func-Round gs (some i) (err e, a) moreopts some_ k = (inl (e, refl), k)
  call_func-Round gs (some i) (ok n, a) moreopts some_ k =
      (inr refl, AreKnown-set_given gs i moreopts k)

  noticed-Round :
      (gs : List Getopt) (more : Option ℕ) (moreopts : List OptionMore) (a b : A)
      → more ≢ none
      → AreKnown gs moreopts
      → Returns
          (elim more as (λ x. Run (Ret × List OptionMore × A)) [
            | none ↦ bug
            | some i ↦ done (err einval, moreopts, a)
          ])
          (Round gs b)
  unfolding Round
  noticed-Round gs none moreopts a b some_ ks = absurd (some_ refl)
  noticed-Round gs (some i) moreopts a b some_ ks = (inl (einval, refl), ks)

  option_round-Round :
      (gs : List Getopt) (g : Getopt) (moreopts : List OptionMore) (a : A)
      → IsKnown g moreopts
      → AreKnown gs moreopts
      → Returns (option_round func g moreopts a) (Round gs (func a g.c g.optarg).1)
  unfolding option_round Round
  option_round-Round gs g moreopts a k ks =
      elim (Bool-cases
        (g.c == help_char || (g.c == unknown_char && g.optopt == 0) || g.c == unknown_char)) [
          | inl stop ↦ rw (stop, option_round) (inl (einval, refl), ks)
          | inr go ↦
              let found : get_more moreopts (if g.c == colon then g.optopt else g.c) ≢ none =
                ground (arith, k, go) in
              let found_if : (b : Bool)
                  → g.c == colon ≡ b
                  → get_more moreopts (if b then g.optopt else g.c) ≢ none =
                (λ b c.
                  subst (λ x. get_more moreopts (if x then g.optopt else g.c) ≢ none) c found) in
              elim (Bool-cases (g.c == colon)) [
                | inl c ↦
                    rw (go, c, option_round) (noticed-Round gs _ moreopts a _ (found_if true c) ks)
                | inr c ↦
                    rw (go, c, option_round)
                      (call_func-Round gs _ (func a g.c g.optarg) moreopts (found_if false c) ks)
              ]
        ]

  pub option_loop-FailsOr :
      (gs : List Getopt) (moreopts : List OptionMore) (a : A)
      → AreKnown gs moreopts
      → Returns (option_loop func gs moreopts a) (FailsOr (apply_options gs a))
  unfolding option_loop Round
  option_loop-FailsOr [] moreopts a k = inr refl
  option_loop-FailsOr (g ∷ gs) moreopts a (k, ks) =
      Returns-bind (Round gs (func a g.c g.optarg).1) _ (option_round func g moreopts a) _
        (option_round-Round gs g moreopts a k ks)
        (λ r w. elim (Ret-cases r.0) [
          | inl (e, q) ↦ rw q (inl (e, refl))
          | inr (n, q) ↦ elim w.0 [
            | inl (e, f) ↦ absurd (ok-err n e (sym q ∙ f))
            | inr s ↦ rw (q, sym s) (option_loop-FailsOr gs r.1 r.2 w.1)
          ]
        ])
