-- ===== src/Webhook/Injector/Laws.antt =====
-- What injector.go does to a pod.
use logpilot.Prelude.{
  String, ◌≡◌, refl, ap, ◌∙◌, subst, ◌≢◌, ◌⊎◌, inl, inr, Bool, true, false, not, ◌&&◌, ◌||◌, List,
  [], ◌∷◌, ◌++◌, append-nil, arith, str_eq, eq_iff, Bool-cases, keep, any, All,
}
use logpilot.Api.{ContainerPolicy}
use logpilot.Webhook.Injector.{
  EnvVar, VolumeMount, Volume, host_path, empty_dir, Container, Pod, log_volume_name, log_host_path,
  downward_api_env_vars, has_env, inject_env_vars, volume_sub_path_expr, is_mounted, inject_mount,
  inject_mounts, inject_volume_mounts, has_volume, any_guaranteed, ensure_log_volume,
}

has_env-append :
    (n : String) (xs ys : List EnvVar) → has_env n (xs ++ ys) ≡ (has_env n xs || has_env n ys)
unfolding has_env
has_env-append n [] ys = refl
has_env-append n (x ∷ xs) ys = ground (arith, has_env-append n xs ys)

is_mounted-append :
    (p : String) (xs ys : List VolumeMount)
    → is_mounted p (xs ++ ys) ≡ (is_mounted p xs || is_mounted p ys)
unfolding is_mounted
is_mounted-append p [] ys = refl
is_mounted-append p (x ∷ xs) ys = ground (arith, is_mounted-append p xs ys)

-- A policy in the list wants the path mounted.
abbrev pub wants : String → List ContainerPolicy → Bool
wants path cps = any (λ (cp : ContainerPolicy). not (str_eq cp.path "-") && str_eq cp.path path) cps

is_mounted-inject_mount :
    (path : String) (ms : List VolumeMount) (cp : ContainerPolicy)
    → is_mounted path (inject_mount ms cp)
      ≡ (is_mounted path ms || (not (str_eq cp.path "-") && str_eq cp.path path))
unfolding inject_mount is_mounted
is_mounted-inject_mount path ms cp =
    let m : VolumeMount = record {
      name = log_volume_name;
      mount_path = cp.path;
      sub_path_expr = volume_sub_path_expr cp;
    } in
    ground (arith, eq_iff cp.path path, is_mounted-append path ms (m ∷ []))

inject_mounts-mounted :
    (path : String) (ms : List VolumeMount) (cps : List ContainerPolicy)
    → is_mounted path (inject_mounts ms cps) ≡ (is_mounted path ms || wants path cps)
unfolding inject_mounts
inject_mounts-mounted path ms [] = ground arith
inject_mounts-mounted path ms (cp ∷ cps) =
    ground (
      arith,
      inject_mounts-mounted path (inject_mount ms cp) cps,
      is_mounted-inject_mount path ms cp,
    )

-- No two mounts have one path.
abbrev pub Distinct : List VolumeMount → Type 0
Distinct [] = Unit
Distinct (m ∷ ms) = (is_mounted m.mount_path ms ≡ false) × Distinct ms

Distinct-add :
    (ms : List VolumeMount) (m : VolumeMount)
    → Distinct ms
    → is_mounted m.mount_path ms ≡ false
    → Distinct (ms ++ m ∷ [])
unfolding is_mounted
Distinct-add [] m d n = (refl, tt)
Distinct-add (x ∷ ms) m (h, d) n = (
  ground (
    arith,
    is_mounted-append x.mount_path ms (m ∷ []),
    eq_iff m.mount_path x.mount_path,
    eq_iff x.mount_path m.mount_path,
  ),
  Distinct-add ms m d (ground arith),
)

inject_mount-Distinct :
    (ms : List VolumeMount) (cp : ContainerPolicy) → Distinct ms → Distinct (inject_mount ms cp)
unfolding inject_mount
inject_mount-Distinct ms cp d = elim (Bool-cases (str_eq cp.path "-" || is_mounted cp.path ms)) [
  | inl e ↦ rw e d
  | inr e ↦ rw e (Distinct-add ms _ d (ground arith))
]

inject_mounts-Distinct :
    (ms : List VolumeMount) (cps : List ContainerPolicy)
    → Distinct ms
    → Distinct (inject_mounts ms cps)
unfolding inject_mounts
inject_mounts-Distinct ms [] d = d
inject_mounts-Distinct ms (cp ∷ cps) d =
    inject_mounts-Distinct (inject_mount ms cp) cps (inject_mount-Distinct ms cp d)

-- Injecting into a container mounts exactly the paths that were mounted before and those that one
-- of its policies wants other than for stdout; where no path was mounted twice, none is after.
pub inject_volume_mounts_lem :
    (c : Container) (cps : List ContainerPolicy)
    → Distinct c.volume_mounts
    → Distinct (inject_volume_mounts c cps).volume_mounts
      × ((path : String)
          → is_mounted path (inject_volume_mounts c cps).volume_mounts
            ≡ (is_mounted path c.volume_mounts || wants path cps))
unfolding inject_volume_mounts
inject_volume_mounts_lem c cps d = (
  inject_mounts-Distinct c.volume_mounts cps d,
  (λ path. inject_mounts-mounted path c.volume_mounts cps),
)

has_env-keep :
    (n : String) (env extra : List EnvVar)
    → (has_env n env || has_env n (keep (λ (e : EnvVar). not (has_env e.name env)) extra))
      ≡ (has_env n env || has_env n extra)
unfolding has_env
has_env-keep n env [] = refl
has_env-keep n env (e ∷ extra) = elim (Bool-cases (str_eq e.name n)) [
  | inl q ↦ elim (Bool-cases (has_env e.name env)) [
    | inl h ↦
        let h' : has_env n env ≡ true =
          subst (λ (m : String). has_env m env ≡ true) ((eq_iff e.name n).0 q) h in
        ground arith
    | inr h ↦ rw h (rw q refl)
  ]
  | inr q ↦ elim (Bool-cases (has_env e.name env)) [
    | inl h ↦ rw h (rw q (has_env-keep n env extra))
    | inr h ↦ rw h (rw q (has_env-keep n env extra))
  ]
]

has_env-inject_env_vars :
    (n : String) (c : Container)
    → has_env n (inject_env_vars c).env ≡ (has_env n c.env || has_env n downward_api_env_vars)
unfolding inject_env_vars
has_env-inject_env_vars n c = has_env-append n c.env _ ∙ has_env-keep n c.env downward_api_env_vars

or_true : (a b : Bool) → b ≡ true → (a || b) ≡ true
or_true a b e = ground arith

inject_env_vars-same :
    (c : Container)
    → has_env "POD_NAME" c.env ≡ true
    → has_env "NAMESPACE" c.env ≡ true
    → has_env "POD_UID" c.env ≡ true
    → inject_env_vars c ≡ c
unfolding inject_env_vars
inject_env_vars-same c a b d =
    rw a (rw b (rw d (ap (λ (es : List EnvVar). record c { env = es }) (append-nil c.env))))

-- After the injection each of the three variables is there, exactly the others are as before, and a
-- second injection changes nothing.
pub inject_env_vars_lem :
    (c : Container)
    → ((n : String)
        → has_env n (inject_env_vars c).env ≡ (has_env n c.env || has_env n downward_api_env_vars))
      × (inject_env_vars (inject_env_vars c) ≡ inject_env_vars c)
unfolding has_env
inject_env_vars_lem c = (
  (λ n. has_env-inject_env_vars n c),
  inject_env_vars-same (inject_env_vars c)
      (has_env-inject_env_vars "POD_NAME" c ∙ or_true (has_env "POD_NAME" c.env) _ refl)
      (has_env-inject_env_vars "NAMESPACE" c ∙ or_true (has_env "NAMESPACE" c.env) _ refl)
      (has_env-inject_env_vars "POD_UID" c ∙ or_true (has_env "POD_UID" c.env) _ refl),
)

has_volume-append : (xs ys : List Volume) → has_volume (xs ++ ys) ≡ (has_volume xs || has_volume ys)
unfolding has_volume
has_volume-append [] ys = refl
has_volume-append (x ∷ xs) ys = ground (arith, has_volume-append xs ys)

has_volume-ensure :
    (pod : Pod) (cps : List ContainerPolicy) → has_volume (ensure_log_volume pod cps).volumes ≡ true
unfolding ensure_log_volume has_volume
has_volume-ensure pod cps = elim (Bool-cases (has_volume pod.volumes)) [
  | inl e ↦ rw e e
  | inr e ↦ rw e (has_volume-append pod.volumes _ ∙ or_true (has_volume pod.volumes) _ refl)
]

ensure_log_volume-same :
    (pod : Pod) (cps : List ContainerPolicy)
    → has_volume pod.volumes ≡ true
    → ensure_log_volume pod cps ≡ pod
unfolding ensure_log_volume
ensure_log_volume-same pod cps e = rw e refl

-- Some policy asks for more than best effort.
abbrev pub NeedsHost : List ContainerPolicy → Type 0
NeedsHost [] = ⊥
NeedsHost (cp ∷ cps) = (cp.delivery ≢ "bestEffort") ⊎ NeedsHost cps

abbrev pub AllBestEffort : List ContainerPolicy → Type 0
AllBestEffort cps = All (λ (cp : ContainerPolicy). cp.delivery ≡ "bestEffort") cps

any_guaranteed-NeedsHost : (cps : List ContainerPolicy) → any_guaranteed cps ≡ true → NeedsHost cps
unfolding any_guaranteed
any_guaranteed-NeedsHost [] h = absurd (cc)
any_guaranteed-NeedsHost (cp ∷ cps) h = elim (Bool-cases (str_eq cp.delivery "bestEffort")) [
  | inl e ↦ inr (any_guaranteed-NeedsHost cps (rw e at h))
  | inr e ↦ inl (λ q. let w = (eq_iff cp.delivery "bestEffort").1 q in absurd (cc))
]

any_guaranteed-AllBestEffort :
    (cps : List ContainerPolicy) → any_guaranteed cps ≡ false → AllBestEffort cps
unfolding any_guaranteed
any_guaranteed-AllBestEffort [] h = tt
any_guaranteed-AllBestEffort (cp ∷ cps) h = elim (Bool-cases (str_eq cp.delivery "bestEffort")) [
  | inl e ↦ ((eq_iff cp.delivery "bestEffort").0 e, any_guaranteed-AllBestEffort cps (rw e at h))
  | inr e ↦ absurd (cc (rw e at h))
]

-- What the volume stands for, and when.
abbrev pub Backed : List ContainerPolicy → Volume → Type 0
Backed cps v =
    (v.name ≡ log_volume_name)
    × (((v.source ≡ host_path log_host_path) × NeedsHost cps)
        ⊎ ((v.source ≡ empty_dir) × AllBestEffort cps))

ensure_log_volume-added :
    (pod : Pod) (cps : List ContainerPolicy)
    → has_volume pod.volumes ≡ false
    → (v : Volume) × ((ensure_log_volume pod cps).volumes ≡ pod.volumes ++ v ∷ []) × Backed cps v
unfolding ensure_log_volume
ensure_log_volume-added pod cps e = elim (Bool-cases (any_guaranteed cps)) [
  | inl g ↦ (
    record { name = log_volume_name; source = host_path log_host_path },
    rw (e, g) refl,
    (refl, inl (refl, any_guaranteed-NeedsHost cps g)),
  )
  | inr g ↦ (
    record { name = log_volume_name; source = empty_dir },
    rw (e, g) refl,
    (refl, inr (refl, any_guaranteed-AllBestEffort cps g)),
  )
]

-- A pod has a volume of the log volume's name afterwards. If it had none it gets exactly one more: from
-- the host, and then some policy's delivery is not "bestEffort", or an empty directory, and then every
-- policy's delivery is "bestEffort". A second call, for whatever policies, changes nothing.
pub ensure_log_volume_lem :
    (pod : Pod) (cps cps' : List ContainerPolicy)
    → (has_volume (ensure_log_volume pod cps).volumes ≡ true)
      × (has_volume pod.volumes ≡ false
          → (v : Volume) × ((ensure_log_volume pod cps).volumes ≡ pod.volumes ++ v ∷ [])
            × Backed cps v)
      × (ensure_log_volume (ensure_log_volume pod cps) cps' ≡ ensure_log_volume pod cps)
ensure_log_volume_lem pod cps cps' = (
  has_volume-ensure pod cps,
  ensure_log_volume-added pod cps,
  ensure_log_volume-same (ensure_log_volume pod cps) cps' (has_volume-ensure pod cps),
)
