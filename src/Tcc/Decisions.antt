-- ===== src/Tcc/Decisions.antt =====
-- What the components' statuses say, and how they can change.
use yukino_go.Base.{
  ℕ, ◌<◌, ◌≡◌, ◌⊎◌, inl, inr, refl, sym, ◌∙◌, Bool, true, false, Bool-cases, Option, none, some,
  Option-cases, List, [], ◌∷◌, All, bytes_beq, bytes_beq_iff, ltb, ltb→lt, ok, >>=-eq-ok,
}
use yukino_go.Tcc.{
  ComponentId, ComponentTryEntity, ComponentTryStatus, try_hanging, try_successful, try_failure,
  Transaction, tx_successful, tx_failure, hanging_exist, get_status, settle, new_status,
  tx_update_each,
}

abbrev pub AllTried : List ComponentTryEntity → Type 0
AllTried cs = All (λ c. c.try_status ≡ try_successful) cs

-- Some component has the status.
abbrev pub Some : ComponentTryStatus → List ComponentTryEntity → Type 0
Some st [] = ⊥
Some st (c ∷ cs) = (c.try_status ≡ st) ⊎ Some st cs

pub AllTried-Some :
    (st : ComponentTryStatus) (cs : List ComponentTryEntity)
    → AllTried cs
    → Some st cs
    → st ≡ try_successful
AllTried-Some st [] a h = elim h [ ]
AllTried-Some st (c ∷ cs) a (inl e) = sym e ∙ a.0
AllTried-Some st (c ∷ cs) a (inr h) = AllTried-Some st cs a.1 h

-- What the loop of `getStatus` finds.
abbrev Found : Option Bool → List ComponentTryEntity → Type 0
Found none cs = Some try_failure cs
Found (some true) cs = Some try_hanging cs
Found (some false) cs = AllTried cs

-- One more component in the loop.
step_hanging :
    (c : ComponentTryEntity) (cs : List ComponentTryEntity)
    → c.try_status ≡ try_hanging
    → (found : Option Bool) → Found found cs
    → Found (elim found [ none ↦ none | some b ↦ some true ]) (c ∷ cs)
step_hanging c cs e none h = inr h
step_hanging c cs e (some b) h = inl e

step_tried :
    (c : ComponentTryEntity) (cs : List ComponentTryEntity)
    → c.try_status ≡ try_successful
    → (found : Option Bool) → Found found cs
    → Found found (c ∷ cs)
step_tried c cs e none h = inr h
step_tried c cs e (some true) h = inr h
step_tried c cs e (some false) h = (e, h)

step-Found :
    (c : ComponentTryEntity) (cs : List ComponentTryEntity) (found : Option Bool)
    → Found found cs
    → (st : ComponentTryStatus) → c.try_status ≡ st
    → Found
        (elim st [
          | try_failure ↦ none
          | try_hanging ↦ elim found [ none ↦ none | some b ↦ some true ]
          | try_successful ↦ found
        ])
        (c ∷ cs)
step-Found c cs found h try_hanging e = step_hanging c cs e found h
step-Found c cs found h try_successful e = step_tried c cs e found h
step-Found c cs found h try_failure e = inl e

hanging_exist-Found : (cs : List ComponentTryEntity) → Found (hanging_exist cs) cs
unfolding hanging_exist
hanging_exist-Found [] = tt
hanging_exist-Found (c ∷ cs) =
    let below = hanging_exist-Found cs in step-Found c cs (hanging_exist cs) below c.try_status refl

pub get_status-successful :
    (before : ℕ) (tx : Transaction) → get_status before tx ≡ tx_successful → AllTried tx.components
unfolding get_status
get_status-successful before tx h =
    let found = hanging_exist-Found tx.components in
    elim (Option-cases (hanging_exist tx.components)) [
      | inl e ↦ let bad = rw (e, get_status) at h in cc
      | inr (true, e) ↦
          let bad = rw (e, get_status) at h in
          elim (Bool-cases (ltb tx.created_at before)) [
            | inl b ↦ let bad' = rw b at bad in cc
            | inr b ↦ let bad' = rw b at bad in cc
          ]
      | inr (false, e) ↦ rw e at found
    ]

pub get_status-failure :
    (before : ℕ) (tx : Transaction)
    → get_status before tx ≡ tx_failure
    → Some try_failure tx.components ⊎ (Some try_hanging tx.components × (tx.created_at < before))
unfolding get_status
get_status-failure before tx h =
    let found = hanging_exist-Found tx.components in
    elim (Option-cases (hanging_exist tx.components)) [
      | inl e ↦ inl (rw e at found)
      | inr (true, e) ↦
          let late = rw (e, get_status) at h in
          elim (Bool-cases (ltb tx.created_at before)) [
            | inl b ↦ inr (rw e at found, ltb→lt tx.created_at before b)
            | inr b ↦ let bad = rw b at late in cc
          ]
      | inr (false, e) ↦ let bad = rw (e, get_status) at h in cc
    ]

-- The same components, of which those that were settled have the status that they had.
abbrev pub Follows : List ComponentTryEntity → List ComponentTryEntity → Type 0
Follows [] [] = Unit
Follows [] (e ∷ es) = ⊥
Follows (c ∷ cs) [] = ⊥
Follows (c ∷ cs) (e ∷ es) =
    (c.component_id ≡ e.component_id)
    × ((c.try_status ≡ e.try_status) ⊎ (c.try_status ≡ try_hanging))
    × Follows cs es

pub Follows-self : (cs : List ComponentTryEntity) → Follows cs cs
Follows-self [] = tt
Follows-self (c ∷ cs) = (refl, inl refl, Follows-self cs)

settled :
    {a b c : ComponentTryStatus}
    → (a ≡ b) ⊎ (a ≡ try_hanging)
    → (b ≡ c) ⊎ (b ≡ try_hanging)
    → (a ≡ c) ⊎ (a ≡ try_hanging)
settled (inr h) t = inr h
settled (inl e) (inl f) = inl (e ∙ f)
settled (inl e) (inr h) = inr (e ∙ h)

pub Follows-trans :
    (cs es fs : List ComponentTryEntity) → Follows cs es → Follows es fs → Follows cs fs
Follows-trans [] [] [] h k = tt
Follows-trans [] [] (f ∷ fs) h k = k
Follows-trans [] (e ∷ es) fs h k = absurd h
Follows-trans (c ∷ cs) [] fs h k = absurd h
Follows-trans (c ∷ cs) (e ∷ es) [] h k = absurd k
Follows-trans (c ∷ cs) (e ∷ es) (f ∷ fs) (i, s, h) (j, t, k) =
    (i ∙ j, settled s t, Follows-trans cs es fs h k)

pub Follows-AllTried : (cs es : List ComponentTryEntity) → Follows cs es → AllTried cs → AllTried es
Follows-AllTried [] [] h a = tt
Follows-AllTried [] (e ∷ es) h a = absurd h
Follows-AllTried (c ∷ cs) [] h a = absurd h
Follows-AllTried (c ∷ cs) (e ∷ es) (i, inl s, h) a = (sym s ∙ a.0, Follows-AllTried cs es h a.1)
Follows-AllTried (c ∷ cs) (e ∷ es) (i, inr s, h) a =
    let bad : try_hanging ≡ try_successful = sym s ∙ a.0 in cc

pub Follows-failed :
    (cs es : List ComponentTryEntity) → Follows cs es → Some try_failure cs → Some try_failure es
Follows-failed [] es h f = elim f [ ]
Follows-failed (c ∷ cs) [] h f = absurd h
Follows-failed (c ∷ cs) (e ∷ es) (i, s, h) (inr f) = inr (Follows-failed cs es h f)
Follows-failed (c ∷ cs) (e ∷ es) (i, inl s, h) (inl f) = inl (sym s ∙ f)
Follows-failed (c ∷ cs) (e ∷ es) (i, inr s, h) (inl f) =
    let bad : try_hanging ≡ try_failure = sym s ∙ f in cc

settle-settled :
    (old : ComponentTryStatus) (accept : Bool) (st : ComponentTryStatus)
    → settle old (new_status accept) ≡ ok st
    → ((old ≡ st) ⊎ (old ≡ try_hanging))
      × ((st ≡ try_successful) → (old ≡ try_successful) ⊎ (accept ≡ true))
unfolding settle
settle-settled try_hanging true st h = (inr refl, λ e. inr refl)
settle-settled try_hanging false st h = (inr refl, λ e. cc)
settle-settled try_successful true st h = (inl cc, λ e. inl refl)
settle-settled try_successful false st h = cc
settle-settled try_failure true st h = cc
settle-settled try_failure false st h = (inl cc, λ e. cc)

-- Every component whose `Try` counts as successful has the property.
abbrev pub Acked : (ComponentId → Type 0) → List ComponentTryEntity → Type 0
Acked P cs = All (λ c. c.try_status ≡ try_successful → P c.component_id) cs

-- `TXUpdate` settles a component that was hanging, or changes nothing, and a component becomes
-- successful only where that is the answer.
pub tx_update_each-Follows :
    (P : ComponentId → Type 0) (id : ComponentId) (accept : Bool)
    → (accept ≡ true → P id)
    → (cs es : List ComponentTryEntity) → tx_update_each id (new_status accept) cs ≡ ok es
    → Follows cs es × (Acked P cs → Acked P es)
unfolding tx_update_each
tx_update_each-Follows P id accept p [] es h = cc
tx_update_each-Follows P id accept p (c ∷ cs) es h =
    elim (Bool-cases (bytes_beq c.component_id id)) [
      | inl this ↦
          let h' = rw this at h in
          let (st, e, e') =
            >>=-eq-ok (settle c.try_status (new_status accept))
              (λ st. ok (record c { try_status = st } ∷ cs)) h' in
          let (kept, why) = settle-settled c.try_status accept st e in
          let named = (bytes_beq_iff c.component_id id).0 this in
          let out : record c { try_status = st } ∷ cs ≡ es = cc in
          rw (sym out) (
            (refl, kept, Follows-self cs),
            λ (a, more).
                (λ now. elim (why now) [ inl was ↦ a was | inr acked ↦ rw named (p acked) ], more),
          )
      | inr other ↦
          let h' = rw other at h in
          let (cs', e, e') =
            >>=-eq-ok (tx_update_each id (new_status accept) cs) (λ cs'. ok (c ∷ cs')) h' in
          let (f, k) = tx_update_each-Follows P id accept p cs cs' e in
          let out : c ∷ cs' ≡ es = cc in
          rw (sym out) ((refl, inl refl, f), λ (a, more). (a, k more))
    ]
