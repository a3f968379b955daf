-- ===== src/Patch/Impact/Closure.antt =====
-- src/patch.rs: the search ends with the functions that the seeds reach, and no others, so no test that
-- a change can affect is left out.
use perdure.Prelude.{
  ℕ, zero, suc, ◌+◌, ◌≤◌, ◌≡◌, ◌↔◌, refl, sym, ap, ◌∙◌, subst, arith, Text, Bool, true, false, ◌||◌,
  List, [], ◌∷◌, text_eq, text_eq_sound, text_eq_refl, contains, length, any, Bool-cases, inl, inr,
  ◌⊎◌, ||-true, In, here, there,
}
use perdure.Prelude.Map
use perdure.Patch.Impact.{
  Graph, callees, push_new, expand, visit, edges, rev, reachable, impacted_tests, Reaches, seed,
  call, contains-push, length-push, contains-rev, length-rev, pending, pending_nil, pending-drop,
}

module _ (g : Graph) (seeds : List Text) where
  abbrev Met : List Text → List Text → Text → Type 0
  Met seen stack x = (contains seen x || contains stack x) ≡ true

  -- Between two turns: what was met is reached, the seeds were met, and so were the callees of what
  -- was seen.
  record Good (seen : List Text) (stack : List Text) : Type 0 where
    sound : (x : Text) → Met seen stack x → Reaches g seeds x
    seeded : (x : Text) → contains seeds x ≡ true → Met seen stack x
    closed :
        (x y : Text)
        → contains seen x ≡ true
        → contains (callees (Map.lookup x g)) y ≡ true
        → Met seen stack y

  start-Good : Good [] (rev seeds [])
  unfolding contains
  start-Good = record {
    sound = λ x m. seed (ground (arith, contains-rev seeds [] x));
    seeded = λ x m. ground (arith, contains-rev seeds [] x);
    closed = λ x y s c. absurd (cc s);
  }

  -- The name at the top was seen before.
  again-Good :
      (n : Text) (seen stack : List Text)
      → contains seen n ≡ true
      → Good seen (n ∷ stack)
      → Good seen stack
  again-Good n seen stack h k = record {
    sound = λ x m. k.sound x (unfold contains in ground arith);
    seeded = λ x m. still x (k.seeded x m);
    closed = λ x y s c. still y (k.closed x y s c);
  }
    where
      still : (x : Text) → Met seen (n ∷ stack) x → Met seen stack x
      still x m = elim (Bool-cases (text_eq n x)) [
        | inl e ↦
            let there_too : contains seen x ≡ true =
              ap (contains seen) (sym (text_eq_sound n x e)) ∙ h in
            rw there_too refl
        | inr e ↦ unfold contains in ground arith
      ]

  -- What was met is met still, and so are the callees of the new name.
  kept :
      (n : Text) (seen stack cs : List Text) (x : Text)
      → Met seen (n ∷ stack) x
      → Met (n ∷ seen) (push_new (n ∷ seen) cs stack) x
  unfolding contains
  kept n seen stack cs x m = ground (arith, contains-push (n ∷ seen) cs stack x)

  pushed :
      (n : Text) (seen stack cs : List Text) (x : Text)
      → contains cs x ≡ true
      → Met (n ∷ seen) (push_new (n ∷ seen) cs stack) x
  unfolding contains
  pushed n seen stack cs x c = ground (arith, contains-push (n ∷ seen) cs stack x)

  Met-before :
      (n : Text) (seen stack cs : List Text) (x : Text)
      → Met (n ∷ seen) (push_new (n ∷ seen) cs stack) x
      → Met seen (n ∷ stack) x ⊎ (contains cs x ≡ true)
  unfolding contains
  Met-before n seen stack cs x m = elim (Bool-cases (contains cs x)) [
    | inl c ↦ inr c
    | inr c ↦ inl (ground (arith, contains-push (n ∷ seen) cs stack x))
  ]

  top : (n : Text) (seen stack : List Text) → Met seen (n ∷ stack) n
  unfolding contains
  top n seen stack = ground (arith, text_eq_refl n)

  -- The name at the top is new: its callees are pushed.
  new-Good :
      (n : Text) (seen stack : List Text)
      → Good seen (n ∷ stack)
      → Good (n ∷ seen) (push_new (n ∷ seen) (callees (Map.lookup n g)) stack)
  unfolding contains
  new-Good n seen stack k =
      let cs = callees (Map.lookup n g) in
      record {
        sound = λ x m. elim (Met-before n seen stack cs x m) [
          | inl before ↦ k.sound x before
          | inr c ↦ call x (k.sound n (top n seen stack)) c
        ];
        seeded = λ x s. kept n seen stack cs x (k.seeded x s);
        closed = λ x y s c. elim (||-true (text_eq n x) (contains seen x) s) [
          | inl e ↦
              let same = text_eq_sound n x e in
              pushed n seen stack cs y
                (subst (λ z. contains (callees (Map.lookup z g)) y ≡ true) (sym same) c)
          | inr old ↦ kept n seen stack cs y (k.closed x y old c)
        ];
      }

  Complete : List Text → Type 0
  Complete out = (x : Text) → (contains out x ≡ true) ↔ Reaches g seeds x

  empty : (seen : List Text) (y : Text) → Met seen [] y → contains seen y ≡ true
  unfolding contains
  empty seen y m = ground arith

  within : (seen : List Text) (y : Text) → Good seen [] → Reaches g seeds y → contains seen y ≡ true
  within seen y k (seed s) = empty seen y (k.seeded y s)
  within seen y k (call {x = z} _ r c) = empty seen y (k.closed z y (within seen z k r) c)

  done-Complete : (seen : List Text) → Good seen [] → Complete seen
  unfolding Complete
  done-Complete seen k x = (λ s. k.sound x (rw s refl), λ r. within seen x k r)

  expand-Complete :
      (b : Bool) (fuel : ℕ) (n : Text) (seen stack : List Text)
      → contains seen n ≡ b
      → length (n ∷ stack) + pending seen g ≤ suc fuel
      → Good seen (n ∷ stack)
      → ((seen' stack' : List Text)
          → length stack' + pending seen' g ≤ fuel
          → Good seen' stack'
          → Complete (visit fuel g seen' stack'))
      → Complete (expand b (visit fuel g) g n seen stack)
  unfolding expand
  expand-Complete true fuel n seen stack b m k rest =
      rest seen stack (omega (arith, m)) (again-Good n seen stack b k)
  expand-Complete false fuel n seen stack b m k rest =
      let cs = callees (Map.lookup n g) in
      rest (n ∷ seen) (push_new (n ∷ seen) cs stack)
        (omega (arith, m, pending-drop n seen g b, length-push (n ∷ seen) cs stack))
        (new-Good n seen stack k)

  visit-Complete :
      (fuel : ℕ) (seen stack : List Text)
      → length stack + pending seen g ≤ fuel
      → Good seen stack
      → Complete (visit fuel g seen stack)
  unfolding visit
  visit-Complete zero seen [] m k = done-Complete seen k
  visit-Complete zero seen (n ∷ stack) m k = absurd (omega (arith, m))
  visit-Complete (suc fuel) seen [] m k = done-Complete seen k
  visit-Complete (suc fuel) seen (n ∷ stack) m k =
      expand-Complete (contains seen n) fuel n seen stack refl m k (visit-Complete fuel)

  -- The search, on its fuel, gives exactly the functions that calls lead to from a seed.
  pub reachable_exact : (x : Text) → (contains (reachable g seeds) x ≡ true) ↔ Reaches g seeds x
  unfolding reachable Complete
  reachable_exact x =
      visit-Complete (length seeds + edges g) [] (rev seeds [])
        (omega (arith, length-rev seeds [], pending_nil g)) start-Good x

any_found :
    (changed xs : List Text) (x : Text)
    → contains changed x ≡ true
    → contains xs x ≡ true
    → any (contains changed) xs ≡ true
unfolding contains
any_found changed [] x c h = absurd (cc h)
any_found changed (y ∷ xs) x c h = elim (||-true (text_eq y x) (contains xs x) h) [
  | inl e ↦
      let here : contains changed y ≡ true = ap (contains changed) (text_eq_sound y x e) ∙ c in
      rw here refl
  | inr later ↦ ground (arith, any_found changed xs x c later)
]

-- No test that a change can affect is left out: a test is impacted if calls lead from one of the
-- functions that it calls to a changed one.
pub impacted_complete :
    (g : Graph) (tests : List (Text × List Text)) (changed : List Text) (t : Text)
    (seeds : List Text) (x : Text)
    → In (t, seeds) tests
    → Reaches g seeds x
    → contains changed x ≡ true
    → contains (impacted_tests g tests changed) t ≡ true
unfolding impacted_tests contains
impacted_complete g [] changed t seeds x i r c = elim i [ ]
impacted_complete g ((t', seeds') ∷ tests) changed t seeds x (here e) r c =
    let name : t ≡ t' = ap (λ (p : Text × List Text). p.0) e in
    let calls : seeds ≡ seeds' = ap (λ (p : Text × List Text). p.1) e in
    let found : any (contains changed) (reachable g seeds') ≡ true =
      any_found changed (reachable g seeds') x c
        ((reachable_exact g seeds' x).1 (subst (λ s. Reaches g s x) calls r)) in
    let same : text_eq t' t ≡ true = subst (λ k. text_eq k t ≡ true) name (text_eq_refl t) in
    rw found (rw same refl)
impacted_complete g ((t', seeds') ∷ tests) changed t seeds x (there i) r c =
    let later = impacted_complete g tests changed t seeds x i r c in
    elim (Bool-cases (any (contains changed) (reachable g seeds'))) [
      | inl e ↦ rw e (ground (arith, later))
      | inr e ↦ rw e later
    ]
