-- ===== src/Tests/Store.antt =====
-- An API server that keeps what it is sent: a client for which the operator's theorems hold.
use logpilot.Prelude.{
  String, ◌≡◌, refl, sym, ap, ◌∙◌, ◌≢◌, inl, inr, Bool, true, false, not, ◌&&◌, Option, none, some,
  List, [], ◌∷◌, arith, str_eq, eq_iff, eq_refl, if◌then◌else◌, if-true, if-false, Bool-cases,
  of_some-eq-some, nonempty, keep, any,
}
use logpilot.Operator.LogPilot.{LogPilot, ObjectMeta, Object, Key, object_key}
use logpilot.Operator.Reconcile.{Answer, found, not_found, Client, done}
use logpilot.Operator.Reconcile.Contract.{IsClient, IsUp}

pub record Store : Type 0 where
  pub objects : List Object
  pub pilot : Option LogPilot

abbrev same_key : Key → Key → Bool
same_key k l = str_eq k.kind l.kind && (str_eq k.namespace l.namespace && str_eq k.name l.name)

abbrev find : Key → List Object → Answer Object
find k [] = not_found
find k (o ∷ os) = if same_key k (object_key o) then found o else find k os

abbrev find_pilot : String → String → Option LogPilot → Answer LogPilot
find_pilot namespace name none = not_found
find_pilot namespace name (some lp) =
    if str_eq namespace lp.namespace && str_eq name lp.name then found lp else not_found

abbrev pub client : Client Store
client = record {
  get = λ k s. find k s.objects;
  create = λ o s. (record s { objects = o ∷ s.objects }, done);
  update = λ o s. (record s { objects = o ∷ s.objects }, done);
  delete = λ k s. (
    record s { objects = keep (λ (o : Object). not (same_key k (object_key o))) s.objects },
    done,
  );
  get_log_pilot = λ namespace name s. find_pilot namespace name s.pilot;
  update_log_pilot = λ lp s. (
    record s { pilot = if lp.deleting && not (nonempty lp.finalizers) then none else some lp },
    done,
  );
  contains_finalizer = λ lp f. any (str_eq f) lp.finalizers;
  add_finalizer = λ lp f. record lp { finalizers = f ∷ lp.finalizers };
  remove_finalizer = λ lp f. record lp { finalizers = keep (λ g. not (str_eq f g)) lp.finalizers };
  set_controller_reference = λ lp m. some (record m { owners = lp.name ∷ m.owners });
}

abbrev pub Stored : Object → Object → Type 0
Stored o x = x ≡ o

same_key_refl : (k : Key) → same_key k k ≡ true
same_key_refl k = rw (eq_refl k.kind, eq_refl k.namespace, eq_refl k.name) refl

same_key-eq : (k l : Key) → same_key k l ≡ true → k ≡ l
same_key-eq k l h = λ i. record {
  kind = (eq_iff k.kind l.kind).0 (ground (arith, h)) i;
  namespace = (eq_iff k.namespace l.namespace).0 (ground (arith, h)) i;
  name = (eq_iff k.name l.name).0 (ground (arith, h)) i;
}

find_first :
    (k : Key) (o : Object) (os : List Object) → k ≡ object_key o → find k (o ∷ os) ≡ found o
find_first k o os e = rw e (if-true _ _ (same_key_refl (object_key o)))

same_key-ne : (k l : Key) → k ≢ l → same_key k l ≡ false
same_key-ne k l d = elim (Bool-cases (same_key k l)) [
  | inl e ↦ absurd (d (same_key-eq k l e))
  | inr e ↦ e
]

abbrev without : Key → List Object → List Object
without k os = keep (λ (o : Object). not (same_key k (object_key o))) os

find-without : (k : Key) (os : List Object) → find k (without k os) ≡ not_found
find-without k [] = refl
find-without k (o ∷ os) = elim (Bool-cases (same_key k (object_key o))) [
  | inl e ↦ rw e (find-without k os)
  | inr e ↦ rw e (rw e (find-without k os))
]

not_both : (o : Object) → ¬ (found o ≡ not_found)
not_both o h = absurd cc

of_found : (o p : Object) → found o ≡ found p → o ≡ p
of_found o p h = cc

find-without_other :
    (k l : Key) (os : List Object) → find k os ≡ not_found → find k (without l os) ≡ not_found
find-without_other k l [] h = refl
find-without_other k l (o ∷ os) h =
    let rest : same_key k (object_key o) ≡ false → find k (without l os) ≡ not_found =
      λ e. find-without_other k l os (sym (if-false _ _ e) ∙ h) in
    elim (Bool-cases (same_key k (object_key o))) [
      | inl e ↦ absurd (not_both o (sym (if-true _ _ e) ∙ h))
      | inr e ↦ elim (Bool-cases (same_key l (object_key o))) [
        | inl e' ↦ rw e' (rest e)
        | inr e' ↦ rw e' (if-false _ _ e ∙ rest e)
      ]
    ]

find-key : (k : Key) (os : List Object) (o : Object) → find k os ≡ found o → object_key o ≡ k
find-key k [] o h = absurd cc
find-key k (p ∷ ps) o h = elim (Bool-cases (same_key k (object_key p))) [
  | inl e ↦
      sym (ap object_key (of_found p o (sym (if-true _ _ e) ∙ h)))
      ∙ sym (same_key-eq k (object_key p) e)
  | inr e ↦ find-key k ps o (sym (if-false _ _ e) ∙ h)
]

pub client-IsClient : IsClient client Stored
client-IsClient = record {
  get-create = λ o s e. (o, find_first (object_key o) o s.objects refl, refl);
  get-update = λ o s e. (o, find_first (object_key o) o s.objects refl, refl);
  create_other = λ o k s d. if-false _ _ (same_key-ne k (object_key o) d);
  update_other = λ o k s d. if-false _ _ (same_key-ne k (object_key o) d);
  get-delete = λ k s e. find-without k s.objects;
  delete_other = λ k l s h. find-without_other k l s.objects h;
  get-key = λ k s o h. find-key k s.objects o h;
  log_pilot-delete = λ namespace name k s. refl;
  get-update_log_pilot = λ lp k s. refl;
  log_pilot-update = λ lp s d e. rw d (rw (eq_refl lp.namespace, eq_refl lp.name) refl);
  contains-add = λ lp f. rw (eq_refl f) refl;
  add_finalizer-same = λ lp f. (f ∷ lp.finalizers, refl);
  owner-key = λ lp m m' e.
      let same = of_some-eq-some e in
      (sym (ap (λ (x : ObjectMeta). x.name) same), sym (ap (λ (x : ObjectMeta). x.namespace) same));
}

pub client-IsUp : IsUp client
client-IsUp = record {
  creates = λ o s h. refl;
  updates = λ o x s h v k. refl;
  updates_log_pilot = λ lp x s h. refl;
  owns = λ lp m h n. (_, refl);
}
