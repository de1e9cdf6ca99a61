-- ===== src/Node/Running.antt =====
-- Calls in turn, as the `?` of node/src/service.rs makes them: what a run does, and what holds of a run
-- whichever of its calls fail.
use nft101_rust.Prelude.{
  ◌≡◌, refl, sym, ap, ◌∙◌, Bool, true, false, Bool-cases, inl, inr, Option, none, some,
  Option-cases, List, [], ◌∷◌, ◌++◌, map, All, All-append, if◌then◌else◌, arith,
}
use mathlib.Core.List.{append-nil, append_assoc}
use mathlib.Core.Option.{none-ne-some}
use nft101_rust.Node.Calls.{Action}

-- A run: what was done, and the error that stopped it, if one did.
pub record Run (E : Type 0) : Type 0 where
  pub trace : List Action
  pub error : Option E

-- A call that is followed by `?`, and one that cannot fail.
pub data Part : Type 0 where
  fallible : Action → Part
  infallible : Action → Part

abbrev pub action : Part → Action
action (fallible a) = a
action (infallible a) = a

-- How a run goes on after a fallible call: not at all on an error.
abbrev pub stop_or : {E : Type 0} → Option E → List Action → Run E → Run E
stop_or none past rest = rest
stop_or (some e) past rest = record { trace = past; error = some e }

-- Makes the calls in turn. A fallible one that fails is the last; whether it does can depend on what
-- was done before.
abbrev pub run : {E : Type 0} → (List Action → Action → Option E) → List Action → List Part → Run E
run fails past [] = record { trace = past; error = none }
run fails past (infallible a ∷ rest) = run fails (past ++ a ∷ []) rest
run fails past (fallible a ∷ rest) =
    stop_or (fails past a) (past ++ a ∷ []) (run fails (past ++ a ∷ []) rest)

-- Whether a call that passes the test was made.
abbrev pub did : (Action → Bool) → List Action → Bool
did test [] = false
did test (a ∷ rest) = if test a then true else did test rest

abbrev pub is_none : {A : Type 0} → Option A → Bool
is_none none = true
is_none (some _) = false

-- Where no call passes the test, each fails it.
pub did-none :
    (test : Action → Bool) (parts : List Part)
    → did test (map action parts) ≡ false
    → All (λ p. test (action p) ≡ false) parts
did-none test [] h = tt
did-none test (p ∷ rest) h = elim (Bool-cases (test (action p))) [
  | inl y ↦ absurd (cc)
  | inr n ↦ (n, did-none test rest (rw n at h))
]

did-append :
    (test : Action → Bool) (xs ys : List Action)
    → did test xs ≡ false
    → did test (xs ++ ys) ≡ did test ys
did-append test [] ys e = refl
did-append test (a ∷ xs) ys e = elim (Bool-cases (test a)) [
  | inl y ↦ ground (arith, y)
  | inr n ↦ rw n (did-append test xs ys (rw n at e))
]

stop_or-none :
    {E : Type 0} (m : Option E) (past : List Action) (r : Run E)
    → (stop_or m past r).error ≡ none
    → stop_or m past r ≡ r
stop_or-none none past r e = refl
stop_or-none (some a) past r e = absurd (none-ne-some _ (sym e))

module _ {E : Type 0} (fails : List Action → Action → Option E) where
  -- A run keeps what holds of the calls made before and of all calls to make.
  pub run-All :
      (P : Action → Type 0) (past : List Action) (parts : List Part)
      → All P past
      → All (λ p. P (action p)) parts
      → All P (run fails past parts).trace
  run-All P past [] h k = h
  run-All P past (infallible a ∷ rest) h k =
      run-All P (past ++ a ∷ []) rest (All-append P past (a ∷ []) h (k.0, tt)) k.1
  run-All P past (fallible a ∷ rest) h k = elim (Option-cases (fails past a)) [
    | inl n ↦
        rw (All, n) (run-All P (past ++ a ∷ []) rest (All-append P past (a ∷ []) h (k.0, tt)) k.1)
    | inr (e, q) ↦ rw (All, q) (All-append P past (a ∷ []) h (k.0, tt))
  ]

  -- A call that is made last of all and at no other time is made just in the runs without an error.
  pub run-did_last :
      (test : Action → Bool) (end : Action) (past : List Action) (parts : List Part)
      → test end ≡ true
      → did test past ≡ false
      → All (λ p. test (action p) ≡ false) parts
      → did test (run fails past (parts ++ infallible end ∷ [])).trace
        ≡ is_none (run fails past (parts ++ infallible end ∷ [])).error
  run-did_last test end past [] last h k = rw (did-append test past (end ∷ []) h, last) refl
  run-did_last test end past (infallible a ∷ rest) last h k =
      run-did_last test end (past ++ a ∷ []) rest last
        (rw (did-append test past (a ∷ []) h, k.0) refl) k.1
  run-did_last test end past (fallible a ∷ rest) last h k = elim (Option-cases (fails past a)) [
    | inl n ↦ rw n (
        run-did_last test end (past ++ a ∷ []) rest last
          (rw (did-append test past (a ∷ []) h, k.0) refl) k.1)
    | inr (e, q) ↦ rw (q, did-append test past (a ∷ []) h, k.0) refl
  ]

  -- A run without an error makes all the calls.
  pub run_all :
      (past : List Action) (parts : List Part)
      → (run fails past parts).error ≡ none
      → (run fails past parts).trace ≡ past ++ map action parts
  run_all past [] e = sym (append-nil past)
  run_all past (infallible a ∷ rest) e =
      run_all (past ++ a ∷ []) rest e ∙ append_assoc past (a ∷ []) (map action rest)
  run_all past (fallible a ∷ rest) e =
      let same = stop_or-none (fails past a) (past ++ a ∷ []) (run fails (past ++ a ∷ []) rest) e in
      ap (λ r. r.trace) same
      ∙ (run_all (past ++ a ∷ []) rest (sym (ap (λ r. r.error) same) ∙ e)
          ∙ append_assoc past (a ∷ []) (map action rest))

  -- A fallible call at the end is made just if the run up to it meets no error.
  pub run-did_end :
      (test : Action → Bool) (end : Action) (past : List Action) (parts : List Part)
      → test end ≡ true
      → did test past ≡ false
      → All (λ p. test (action p) ≡ false) parts
      → did test (run fails past (parts ++ fallible end ∷ [])).trace
        ≡ is_none (run fails past parts).error
  run-did_end test end past [] last h k = elim (Option-cases (fails past end)) [
    | inl n ↦ rw (n, did-append test past (end ∷ []) h, last) refl
    | inr (e, q) ↦ rw (q, did-append test past (end ∷ []) h, last) refl
  ]
  run-did_end test end past (infallible a ∷ rest) last h k =
      run-did_end test end (past ++ a ∷ []) rest last
        (rw (did-append test past (a ∷ []) h, k.0) refl) k.1
  run-did_end test end past (fallible a ∷ rest) last h k = elim (Option-cases (fails past a)) [
    | inl n ↦ rw n (
        run-did_end test end (past ++ a ∷ []) rest last
          (rw (did-append test past (a ∷ []) h, k.0) refl) k.1)
    | inr (e, q) ↦ rw (q, did-append test past (a ∷ []) h, k.0) refl
  ]
