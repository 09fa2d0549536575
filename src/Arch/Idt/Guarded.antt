-- ===== src/Arch/Idt/Guarded.antt =====
-- What any history of the table's calls keeps from user programs, and what it reports as missing.
use whisez_os.Prelude.{
  ℕ, zero, suc, ◌+◌, ◌<◌, ◌^◌, ◌≡◌, ◌⊎◌, inl, inr, refl, ap, ◌∙◌, sym, subst, Bool, true, false,
  not, ◌&&◌, ◌||◌, some, List, [], ◌∷◌, arith, ltb, leb, ◌==◌, length, get_elem?, set, replicate,
  length-set, length-replicate, get_elem?-lt, get_elem?-set_self, dec_le, get_elem?-set_ne,
  ℕ_discrete, Bool-cases,
}
use whisez_os.Prelude.Results.{Result, ok, err, ◌>>=◌, bind_ok, ok_injective}
use whisez_os.Arch.Idt.{
  Idt, GateDescriptor, GateKind, IdtError, missing, new, gate_new, gate_dpl, set_handler,
  set_user_invokable_handler, set_device_handler, breakpoint, vector_count, first_device, interrupt,
  is_reserved, present_at, missing_from, missing_exception_vectors,
}
use whisez_os.Arch.Idt.Gates.{gate_new-Decodes}

-- A gate that user programs cannot invoke, unless it is that of breakpoints, with its reserved bits clear.
pub record IsClosed (v : ℕ) (g : GateDescriptor) : Type 0 where
  pub closed : (gate_dpl g ≡ 0) ⊎ (v ≡ breakpoint)
  pub clear : g.ist < 8

pub record IsGuarded (idt : Idt) : Type 0 where
  pub size : length idt ≡ vector_count
  pub gates : (v : ℕ) (g : GateDescriptor) → get_elem? idt v ≡ some g → IsClosed v g

-- Calls in a row, each with an address of 64 bits, that succeed; a call that fails changes nothing.
pub data Reach : Idt → Type 0 where
  here : Reach new
  sets :
      {idt idt' : Idt} (v handler selector : ℕ) (kind : GateKind) (ist_index : ℕ)
      → handler < 2 ^ 64
      → Reach idt
      → set_handler idt v handler selector kind ist_index ≡ ok idt'
      → Reach idt'
  sets_user :
      {idt idt' : Idt} (v handler selector : ℕ) (kind : GateKind)
      → handler < 2 ^ 64
      → Reach idt
      → set_user_invokable_handler idt v handler selector kind ≡ ok idt'
      → Reach idt'
  sets_device :
      {idt idt' : Idt} (v handler selector : ℕ)
      → handler < 2 ^ 64
      → Reach idt
      → set_device_handler idt v handler selector ≡ ok idt'
      → Reach idt'

get_elem?-replicate :
    (n v : ℕ) (g : GateDescriptor) → get_elem? (replicate n missing) v ≡ some g → missing ≡ g
get_elem?-replicate zero v g e = cc
get_elem?-replicate (suc n) zero g e = cc
get_elem?-replicate (suc n) (suc v) g e = get_elem?-replicate n v g e

new-IsGuarded : IsGuarded new
unfolding new gate_dpl
new-IsGuarded = record {
  size = length-replicate {A = GateDescriptor} vector_count missing;
  gates = λ v g e.
      subst (IsClosed v) (get_elem?-replicate vector_count v g e)
        (record { closed = inl refl; clear = omega arith });
}

eq_of_test : (a b : ℕ) → (a == b) ≡ true → a ≡ b
eq_of_test a b e = ground arith

some_injective : {x y : GateDescriptor} → some x ≡ some y → x ≡ y
some_injective e = cc

set-IsGuarded :
    (idt : Idt) (v : ℕ) (g : GateDescriptor)
    → IsGuarded idt
    → IsClosed v g
    → IsGuarded (set idt v g)
set-IsGuarded idt v g k c = record {
  size = length-set idt v g ∙ k.size;
  gates = λ w h e. elim (ℕ_discrete v w) [
    | no other ↦ k.gates w h (sym (get_elem?-set_ne idt g other) ∙ e)
    | yes same ↦ here_or_out w h e same
  ];
}
  where
    here_or_out :
        (w : ℕ) (h : GateDescriptor) → get_elem? (set idt v g) w ≡ some h → v ≡ w → IsClosed w h
    here_or_out w h e same =
        let inside : v < length idt =
          omega (arith, get_elem?-lt (set idt v g) w e, length-set idt v g, same) in
        let found = get_elem?-set_self idt v g inside in
        subst (IsClosed w) (some_injective (sym found ∙ ap (get_elem? (set idt v g)) same ∙ e))
          (subst (λ x. IsClosed x g) same c)

contradiction :
    {x : IdtError} {g : GateDescriptor}
    → ◌≡◌ {A = Result IdtError GateDescriptor} (err x) (ok g)
    → ⊥
contradiction e = cc

gate_new-IsClosed :
    (handler selector : ℕ) (kind : GateKind) (ist_index v : ℕ) {g : GateDescriptor}
    → handler < 2 ^ 64
    → gate_new handler selector kind 0 ist_index ≡ ok g
    → IsClosed v g
gate_new-IsClosed handler selector kind ist_index v {g} h e =
    let (bad, good) = gate_new-Decodes handler selector kind 0 ist_index h (omega arith) in
    elim (dec_le ist_index 7) [
      | yes fits ↦
          let (g', made, d) = good fits in
          subst (IsClosed v) (ok_injective (sym made ∙ e))
            (record { closed = inl d.privilege; clear = d.clear })
      | no large ↦ absurd (contradiction (sym (bad (omega arith)) ∙ e))
    ]

set_handler-IsGuarded :
    (idt : Idt) (v handler selector : ℕ) (kind : GateKind) (ist_index : ℕ) {idt' : Idt}
    → handler < 2 ^ 64
    → IsGuarded idt
    → set_handler idt v handler selector kind ist_index ≡ ok idt'
    → IsGuarded idt'
unfolding set_handler
set_handler-IsGuarded idt v handler selector kind ist_index h k e =
    bind_ok (gate_new handler selector kind 0 ist_index) _ e (λ g g_e e.
      subst IsGuarded (ok_injective e)
        (set-IsGuarded idt v g k (gate_new-IsClosed handler selector kind ist_index v h g_e)))

set_user-IsGuarded :
    (idt : Idt) (v handler selector : ℕ) (kind : GateKind) {idt' : Idt}
    → handler < 2 ^ 64
    → IsGuarded idt
    → set_user_invokable_handler idt v handler selector kind ≡ ok idt'
    → IsGuarded idt'
unfolding set_user_invokable_handler
set_user-IsGuarded idt v handler selector kind {idt'} h k e = elim (Bool-cases (v == breakpoint)) [
  | inr other ↦ absurd (ground arith)
  | inl bp ↦
      let (_, good) = gate_new-Decodes handler selector kind 3 0 h (omega arith) in
      let (g, made, d) = good (omega arith) in
      let done : set_user_invokable_handler idt v handler selector kind ≡ ok (set idt v g) =
        rw bp (ap (λ (r : Result IdtError GateDescriptor). r >>= λ x. ok (set idt v x)) made) in
      subst IsGuarded (ok_injective (sym done ∙ e)) (
        set-IsGuarded idt v g k
          (record { closed = inr (eq_of_test v breakpoint bp); clear = d.clear }))
]

set_device-IsGuarded :
    (idt : Idt) (v handler selector : ℕ) {idt' : Idt}
    → handler < 2 ^ 64
    → IsGuarded idt
    → set_device_handler idt v handler selector ≡ ok idt'
    → IsGuarded idt'
unfolding set_device_handler
set_device-IsGuarded idt v handler selector {idt'} h k e = elim (Bool-cases (ltb v first_device)) [
  | inl low ↦ absurd (ground arith)
  | inr high ↦
      let same : set_device_handler idt v handler selector
          ≡ set_handler idt v handler selector interrupt 0 =
        rw high refl in
      set_handler-IsGuarded idt v handler selector interrupt 0 h k (sym same ∙ e)
]

-- Whatever handlers are set, in whatever order and by whichever call, the table has a gate for each of
-- its 256 vectors, user programs can invoke none but that of breakpoints, and the reserved bits of the
-- stack index are clear.
pub Reach-IsGuarded : {idt : Idt} → Reach idt → IsGuarded idt
Reach-IsGuarded here = new-IsGuarded
Reach-IsGuarded (sets {idt} v handler selector kind ist_index h r e) =
    set_handler-IsGuarded idt v handler selector kind ist_index h (Reach-IsGuarded r) e
Reach-IsGuarded (sets_user {idt} v handler selector kind h r e) =
    set_user-IsGuarded idt v handler selector kind h (Reach-IsGuarded r) e
Reach-IsGuarded (sets_device {idt} v handler selector h r e) =
    set_device-IsGuarded idt v handler selector h (Reach-IsGuarded r) e

abbrev lists : List ℕ → ℕ → Bool
lists [] v = false
lists (x ∷ xs) v = x == v || lists xs v

missing_from-lists :
    (idt : Idt) (n from v : ℕ)
    → lists (missing_from idt n from) v
      ≡ (leb from v && ltb v (from + n) && not (is_reserved v) && not (present_at idt v))
unfolding missing_from
missing_from-lists idt zero from v = ground arith
missing_from-lists idt (suc n) from v = elim (ℕ_discrete from v) [
  | yes same ↦
      ground (
        arith,
        missing_from-lists idt n (from + 1) v,
        ap is_reserved same,
        ap (present_at idt) same,
      )
  | no other ↦ ground (arith, missing_from-lists idt n (from + 1) v)
]

-- The report names exactly the vectors of exceptions, but for the reserved ones, without a present gate.
pub missing_exception_vectors-lists :
    (idt : Idt) (v : ℕ)
    → lists (missing_exception_vectors idt) v
      ≡ (ltb v 32 && not (is_reserved v) && not (present_at idt v))
unfolding missing_exception_vectors
missing_exception_vectors-lists idt v = ground (arith, missing_from-lists idt 32 0 v)
