-- ===== src/Operator/Reconcile/Cleanup.antt =====
-- What `cleanupLogPilot` leaves.
use logpilot.Prelude.{
  String, ◌≡◌, refl, sym, ◌∙◌, subst, inl, inr, Bool, true, false, List, [], ◌∷◌, Bool-cases, All,
}
use logpilot.Operator.LogPilot.{Object, Key, object_key}
use logpilot.Operator.Reconcile.{not_found, Client, is_gone, delete_all}
use logpilot.Operator.Reconcile.Contract.{IsClient}

module _ {S : Type 0} (c : Client S) where
  delete_all_more :
      (o : Object) (os : List Object) (s : S)
      → is_gone (c.delete (object_key o) s).1 ≡ true
      → delete_all c (o ∷ os) s ≡ delete_all c os (c.delete (object_key o) s).0
  unfolding delete_all
  delete_all_more o os s e = rw (e, delete_all)

  delete_all_stop :
      (o : Object) (os : List Object) (s : S)
      → is_gone (c.delete (object_key o) s).1 ≡ false
      → delete_all c (o ∷ os) s ≡ ((c.delete (object_key o) s).0, false)
  unfolding delete_all
  delete_all_stop o os s e = rw (e, delete_all)

module _ {S : Type 0} (c : Client S) (Stored : Object → Object → Type 0)
    (laws : IsClient c Stored) where
  abbrev pub Gone : S → Object → Type 0
  Gone s o = c.get (object_key o) s ≡ not_found

  delete_all-gone :
      (k : Key) (os : List Object) (s : S)
      → c.get k s ≡ not_found
      → c.get k (delete_all c os s).0 ≡ not_found
  unfolding delete_all
  delete_all-gone k [] s h = h
  delete_all-gone k (o ∷ os) s h =
      let h' = laws.delete_other k (object_key o) s h in
      elim (Bool-cases (is_gone (c.delete (object_key o) s).1)) [
        | inl e ↦ rw (delete_all_more c o os s e) (delete_all-gone k os _ h')
        | inr e ↦ rw (delete_all_stop c o os s e) h'
      ]

  abbrev Cleared : List Object → S × Bool → Type 0
  Cleared os (s, good) = good ≡ true → All (Gone s) os

  pub delete_all-Gone : (os : List Object) (s : S) → Cleared os (delete_all c os s)
  unfolding delete_all
  delete_all-Gone [] s = λ h. tt
  delete_all-Gone (o ∷ os) s = elim (Bool-cases (is_gone (c.delete (object_key o) s).1)) [
    | inl e ↦
        let s' = (c.delete (object_key o) s).0 in
        subst (Cleared (o ∷ os)) (sym (delete_all_more c o os s e)) (λ h. (
          delete_all-gone (object_key o) os s' (laws.get-delete (object_key o) s e),
          delete_all-Gone os s' h,
        ))
    | inr e ↦ subst (Cleared (o ∷ os)) (sym (delete_all_stop c o os s e)) (λ h. absurd (cc))
  ]

  pub delete_all-log_pilot :
      (namespace name : String) (os : List Object) (s : S)
      → c.get_log_pilot namespace name (delete_all c os s).0 ≡ c.get_log_pilot namespace name s
  unfolding delete_all
  delete_all-log_pilot namespace name [] s = refl
  delete_all-log_pilot namespace name (o ∷ os) s =
      let one = laws.log_pilot-delete namespace name (object_key o) s in
      elim (Bool-cases (is_gone (c.delete (object_key o) s).1)) [
        | inl e ↦ rw (delete_all_more c o os s e) (delete_all-log_pilot namespace name os _ ∙ one)
        | inr e ↦ rw (delete_all_stop c o os s e) one
      ]
