-- ===== src/Domains/Notice/Links.antt =====
-- src/domains/notice/client.ts: the two maps of a client, and what waits.
use fitz_ts.Base.{
  ℕ, ◌≡◌, ◌≢◌, sym, ap, ◌∙◌, List, [], some, none, Option-cases, ◌==◌, arith, Bool-cases, inl, inr,
}
use fitz_ts.Base.Assoc.{
  lookup, insert, remove, lookup-insert_other, lookup-remove_other, lookup-insert_at,
  lookup-remove_at, some-injective, none-some,
}
use fitz_ts.Domains.Pending.{waiting}
use fitz_ts.Domains.Notice.{Subscription, Notices, handlers_of, subscription_of, resolve}

-- Each identifier leads to a subscription that has it.
abbrev pub IsLinked : List (ℕ × Subscription) → List (ℕ × ℕ) → Type 0
IsLinked subs patterns =
    (s p : ℕ)
    → lookup s patterns ≡ some p
    → (st : Subscription) × (lookup p subs ≡ some st) × (st.sub_id ≡ s)

-- Nothing waits for an identifier that is known.
abbrev pub IsClear : {N : Type 0} → List (ℕ × ℕ) → List (ℕ × List N) → Type 0
IsClear patterns pending = (s p : ℕ) → lookup s patterns ≡ some p → waiting s pending ≡ []

module _ {N : Type 0} where
  pub record IsSound (c : Notices N) : Type 0 where
    pub linked : IsLinked c.subscriptions_by_pattern c.patterns_by_sub_id
    pub clear : IsClear c.patterns_by_sub_id c.pending

pub insert-IsLinked :
    (subs : List (ℕ × Subscription)) (patterns : List (ℕ × ℕ)) (pattern : ℕ) (st st' : Subscription)
    → lookup pattern subs ≡ some st
    → st'.sub_id ≡ st.sub_id
    → IsLinked subs patterns
    → IsLinked (insert pattern st' subs) patterns
insert-IsLinked subs patterns pattern st st' e same h s p k = elim (Bool-cases (pattern == p)) [
  | inl here ↦
      let same_pattern : pattern ≡ p = ground arith in
      let r = h s p k in
      let old : r.0 ≡ st =
        some-injective r.0 st (sym r.1 ∙ (ap (λ i. lookup i subs) (sym same_pattern) ∙ e)) in
      (
        st',
        lookup-insert_at p pattern st' subs same_pattern,
        same ∙ (ap (λ x. x.sub_id) (sym old) ∙ r.2),
      )
  | inr there ↦
      let ne : pattern ≢ p = ground arith in
      let r = h s p k in (r.0, lookup-insert_other p pattern st' subs ne ∙ r.1, r.2)
]

pub create-IsLinked :
    (subs : List (ℕ × Subscription)) (patterns : List (ℕ × ℕ)) (pattern : ℕ) (st : Subscription)
    → lookup pattern subs ≡ none
    → IsLinked subs patterns
    → IsLinked (insert pattern st subs) (insert st.sub_id pattern patterns)
create-IsLinked subs patterns pattern st e h s p k = elim (Bool-cases (st.sub_id == s)) [
  | inl here ↦
      let same_id : st.sub_id ≡ s = ground arith in
      let pattern_of : pattern ≡ p =
        some-injective pattern p
          (sym (lookup-insert_at s st.sub_id pattern patterns same_id) ∙ k) in
      (st, lookup-insert_at p pattern st subs pattern_of, same_id)
  | inr there ↦
      let other_id : st.sub_id ≢ s = ground arith in
      let r = h s p (sym (lookup-insert_other s st.sub_id pattern patterns other_id) ∙ k) in
      let ne : pattern ≢ p = λ q. none-some r.0 (sym e ∙ (ap (λ i. lookup i subs) q ∙ r.1)) in
      (r.0, lookup-insert_other p pattern st subs ne ∙ r.1, r.2)
]

pub remove-IsLinked :
    (subs : List (ℕ × Subscription)) (patterns : List (ℕ × ℕ)) (pattern : ℕ) (st : Subscription)
    → lookup pattern subs ≡ some st
    → IsLinked subs patterns
    → IsLinked (remove pattern subs) (remove st.sub_id patterns)
remove-IsLinked subs patterns pattern st e h s p k =
    let other_id : st.sub_id ≢ s =
      λ q. none-some p (sym (lookup-remove_at s st.sub_id patterns q) ∙ k) in
    let r = h s p (sym (lookup-remove_other s st.sub_id patterns other_id) ∙ k) in
    let ne : pattern ≢ p = λ q. other_id (
      ap (λ x. x.sub_id) (some-injective st r.0 (sym e ∙ (ap (λ i. lookup i subs) q ∙ r.1)))
      ∙ r.2) in
    (r.0, lookup-remove_other p pattern subs ne ∙ r.1, r.2)

pub resolve-known :
    (subs : List (ℕ × Subscription)) (patterns : List (ℕ × ℕ)) (s : ℕ) (hs : List ℕ)
    → resolve subs patterns s ≡ some hs
    → (p : ℕ) × (lookup s patterns ≡ some p)
resolve-known subs patterns s hs e = elim (Option-cases (lookup s patterns)) [
  | inl unknown ↦
      absurd (none-some hs (sym (ap (λ o. handlers_of (subscription_of o subs)) unknown) ∙ e))
  | inr known ↦ known
]

pub resolve-unknown :
    (subs : List (ℕ × Subscription)) (patterns : List (ℕ × ℕ)) (s p : ℕ)
    → IsLinked subs patterns
    → resolve subs patterns s ≡ none
    → lookup s patterns ≡ some p
    → ⊥
resolve-unknown subs patterns s p h e k =
    let r = h s p k in
    none-some r.0.handlers
      (sym e ∙ (ap (λ o. handlers_of (subscription_of o subs)) k ∙ ap handlers_of r.1))

pub learn-IsLinked :
    (subs : List (ℕ × Subscription)) (patterns : List (ℕ × ℕ)) (pattern : ℕ) (st : Subscription)
    → lookup pattern subs ≡ some st
    → IsLinked subs patterns
    → IsLinked subs (insert st.sub_id pattern patterns)
learn-IsLinked subs patterns pattern st e h s p k = elim (Bool-cases (st.sub_id == s)) [
  | inl here ↦
      let same_id : st.sub_id ≡ s = ground arith in
      let pattern_of : pattern ≡ p =
        some-injective pattern p
          (sym (lookup-insert_at s st.sub_id pattern patterns same_id) ∙ k) in
      (st, ap (λ i. lookup i subs) (sym pattern_of) ∙ e, same_id)
  | inr there ↦ h s p (sym (lookup-insert_other s st.sub_id pattern patterns (ground arith)) ∙ k)
]

pub remove-IsClear :
    {N : Type 0} (patterns : List (ℕ × ℕ)) (i : ℕ) (pending : List (ℕ × List N))
    → IsClear patterns pending
    → IsClear (remove i patterns) pending
remove-IsClear patterns i pending h s p k =
    let ne : i ≢ s = λ q. none-some p (sym (lookup-remove_at s i patterns q) ∙ k) in
    h s p (sym (lookup-remove_other s i patterns ne) ∙ k)

pub nothing_known : {A : Type 0} (s : ℕ) (a : A) → lookup s [] ≡ some a → ⊥
unfolding lookup
nothing_known s a h = none-some a h
