-- ===== src/Msg/Handlers.antt =====
-- The receive handlers of shared/msg.c: registration by message type, and dispatch. A handler
-- is a number that stands for the function pointer; what a handler does is a parameter.
use ngnfs_progs.Prelude.{
  ℕ, ◌≤◌, ◌<◌, ◌≡◌, ◌≢◌, ◌⊎◌, inl, inr, refl, sym, ap, ◌∙◌, ==_iff, ltb, leb, ◌==◌, ◌||◌, ◌&&◌,
  if◌then◌else◌, arith, Option, Option-cases, Bool-cases, some, none, Bool, true, false,
}
use ngnfs_progs.Prelude.Errno.{Ret, ok, err, einval, eexist}
use ngnfs_progs.Msg.Wire.{msg_nr}

-- minf->recv_fns; null is `none`.
abbrev pub RecvFns : Type 0
RecvFns = ℕ → Option ℕ

abbrev pub set_fn : RecvFns → ℕ → Option ℕ → RecvFns
set_fn fns t f u = if u == t then f else fns u

abbrev pub is_set : Option ℕ → Bool
is_set none = false
is_set (some f) = true

abbrev pub is_fn : ℕ → Option ℕ → Bool
is_fn f none = false
is_fn f (some g) = g == f

unfoldable pub ngnfs_msg_register_recv : RecvFns → ℕ → ℕ → Ret × RecvFns
ngnfs_msg_register_recv fns t f =
    if leb msg_nr t || is_set (fns t) then (err eexist, fns) else (ok 0, set_fn fns t (some f))

-- `none` is messaging that has not been set up.
unfoldable pub ngnfs_msg_unregister_recv : Option RecvFns → ℕ → ℕ → Option RecvFns
ngnfs_msg_unregister_recv none t f = none
ngnfs_msg_unregister_recv (some fns) t f =
    some (if ltb t msg_nr && is_fn f (fns t) then set_fn fns t none else fns)

unfoldable pub ngnfs_msg_recv {ℓ} : {D : Type ℓ} → (ℕ → D → Ret) → RecvFns → (D → ℕ) → D → Ret
ngnfs_msg_recv call fns type_of mdesc =
    if ltb (type_of mdesc) msg_nr
    then elim (fns (type_of mdesc)) [ some f ↦ call f mdesc | none ↦ err einval ]
    else err einval

abbrev Free : RecvFns → ℕ → Type 0
Free fns t = (t < msg_nr) × (fns t ≡ none)

abbrev Taken : RecvFns → ℕ → Type 0
Taken fns t = (msg_nr ≤ t) ⊎ (fns t ≢ none)

register_cases : (fns : RecvFns) (t : ℕ) → Free fns t ⊎ Taken fns t
register_cases fns t = elim (Option-cases (fns t)) [
  | inl e ↦ elim (bound t) [ inl l ↦ inl (l, e) | inr g ↦ inr (inl g) ]
  | inr (f, e) ↦ inr (inr (λ n. cc))
]
  where
    bound : (t : ℕ) → (t < msg_nr) ⊎ (msg_nr ≤ t)
    bound t = ground arith

register-Free :
    (fns : RecvFns) (t f : ℕ)
    → Free fns t
    → ngnfs_msg_register_recv fns t f ≡ (ok 0, set_fn fns t (some f))
unfolding ngnfs_msg_register_recv
register-Free fns t f (l, e) = ground arith

register-Taken :
    (fns : RecvFns) (t f : ℕ) → Taken fns t → ngnfs_msg_register_recv fns t f ≡ (err eexist, fns)
unfolding ngnfs_msg_register_recv
register-Taken fns t f b = ground arith

module _ {ℓ} {D : Type ℓ} (call : ℕ → D → Ret) (type_of : D → ℕ) where
  recv-set_fn :
      (fns : RecvFns) (t f : ℕ) (d : D)
      → t < msg_nr
      → ngnfs_msg_recv call (set_fn fns t (some f)) type_of d
        ≡ (if type_of d == t then call f d else ngnfs_msg_recv call fns type_of d)
  unfolding ngnfs_msg_recv
  recv-set_fn fns t f d l = elim (Bool-cases (type_of d == t)) [
    | inl e ↦ let known : ltb (type_of d) msg_nr ≡ true = ground arith in rw (e, known)
    | inr n ↦ rw n
  ]

  -- What registering `f` for the type `t` does: it succeeds exactly where the type exists and
  -- has no handler. Then messages of the type go to `f` and those of other types where they went,
  -- and unregistering `f` gives the table back. Otherwise it returns EEXIST and changes nothing.
  pub Registers : RecvFns → ℕ → ℕ → Ret × RecvFns → Type ℓ
  Registers fns t f r =
      (Free fns t
        × (r.0 ≡ ok 0)
        × ((d : D)
            → ngnfs_msg_recv call r.1 type_of d
              ≡ (if type_of d == t then call f d else ngnfs_msg_recv call fns type_of d))
        × ((back : RecvFns) × (ngnfs_msg_unregister_recv (some r.1) t f ≡ some back)
            × ((u : ℕ) → back u ≡ fns u)))
      ⊎ (Taken fns t × (r ≡ (err eexist, fns)))

  pub register_recv-Registers :
      (fns : RecvFns) (t f : ℕ) → Registers fns t f (ngnfs_msg_register_recv fns t f)
  unfolding Registers ngnfs_msg_unregister_recv
  register_recv-Registers fns t f = elim (register_cases fns t) [
    | inl free ↦ rw (register-Free fns t f free) (
        inl (
          free,
          refl,
          λ d. recv-set_fn fns t f d free.0,
          (set_fn (set_fn fns t (some f)) t none, unregister free.0, back_same free.1),
        ))
    | inr taken ↦ rw (register-Taken fns t f taken) (inr (taken, refl))
  ]
    where
      itself : is_fn f (set_fn fns t (some f) t) ≡ true
      itself = ground arith

      unregister :
          t < msg_nr
          → ngnfs_msg_unregister_recv (some (set_fn fns t (some f))) t f
            ≡ some (set_fn (set_fn fns t (some f)) t none)
      unregister l = let known : ltb t msg_nr ≡ true = ground arith in rw (known, itself)

      back_same : fns t ≡ none → (u : ℕ) → set_fn (set_fn fns t (some f)) t none u ≡ fns u
      back_same e u = elim (Bool-cases (u == t)) [
        | inl q ↦ rw q (sym e ∙ ap fns (sym ((==_iff u t).0 q)))
        | inr n ↦ rw n
      ]
