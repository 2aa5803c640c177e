-- ===== src/Config/Load/Complete.antt =====
-- A configuration that was loaded has every setting that the agent needs.
use kbeacon.Prelude.{
  ℕ, ◌≡◌, ◌≢◌, refl, Bool, Option, Outcome, ok, ◌>>=◌, chained, ok_injective, subst, List, [], ◌∷◌,
  arith, Bool-cases, inl, inr,
}
use kbeacon.Text.{Text, str, ◌==◌, trim_space}
use kbeacon.Discovery.Objects.{default_metadata_label_key_config}
use kbeacon.Discovery.Metadata.{or_list}
use kbeacon.Config.Types.{Config, default_config}
use kbeacon.Config.Load.{
  or_default, or_port, normalize_metadata_labels, normalize, apply_env, in_file, load_file, load,
}

-- No setting that `Normalize` fills is empty, except the excluded namespaces, which may be.
pub record IsComplete (c : Config) : Type 0 where
  pub cluster : c.cluster.name ≢ []
  pub log_level : c.log.level ≢ []
  pub port : c.agent.http.port ≢ 0
  pub grace : c.agent.shutdown_grace_period ≢ []
  pub mode : c.discovery.default_mode ≢ []
  pub resync : c.discovery.resync_interval ≢ []
  pub debounce : c.discovery.reconcile.debounce ≢ []
  pub owner_team : c.discovery.metadata_labels.owner_team ≢ []
  pub service : c.discovery.metadata_labels.service ≢ []
  pub environment : c.discovery.metadata_labels.environment ≢ []
  pub criticality : c.discovery.metadata_labels.criticality ≢ []

or_default-ne : (value default : Text) → default ≢ [] → or_default value default ≢ []
or_default-ne [] default h e = h e
or_default-ne (c ∷ s) default h e = cc

or_list-ne : (xs default : List Text) → default ≢ [] → or_list xs default ≢ []
or_list-ne [] default h e = h e
or_list-ne (x ∷ xs) default h e = cc

or_port-ne : (port default : ℕ) → default ≢ 0 → or_port port default ≢ 0
or_port-ne port default h = ground arith

cons-ne {ℓ} : {A : Type ℓ} (x : A) (xs : List A) → x ∷ xs ≢ []
cons-ne x xs e = cc

pub normalize-IsComplete : (c : Config) → IsComplete (normalize c)
unfolding normalize normalize_metadata_labels default_metadata_label_key_config
normalize-IsComplete c = record {
  cluster = or_default-ne _ _ (cons-ne _ _);
  log_level = or_default-ne _ _ (cons-ne _ _);
  port = or_port-ne c.agent.http.port 8080 (omega arith);
  grace = or_default-ne _ _ (cons-ne _ _);
  mode = or_default-ne _ _ (cons-ne _ _);
  resync = or_default-ne _ _ (cons-ne _ _);
  debounce = or_default-ne _ _ (cons-ne _ _);
  owner_team = or_list-ne _ _ (cons-ne _ _);
  service = or_list-ne _ _ (cons-ne _ _);
  environment = or_list-ne _ _ (cons-ne _ _);
  criticality = or_list-ne _ _ (cons-ne _ _);
}

default_config-IsComplete : IsComplete default_config
unfolding default_metadata_label_key_config
default_config-IsComplete = record {
  cluster = cons-ne _ _;
  log_level = cons-ne _ _;
  port = omega arith;
  grace = cons-ne _ _;
  mode = cons-ne _ _;
  resync = cons-ne _ _;
  debounce = cons-ne _ _;
  owner_team = cons-ne _ _;
  service = cons-ne _ _;
  environment = cons-ne _ _;
  criticality = cons-ne _ _;
}

module _ (getenv : Text → Text) (parse_bool : Text → Option Bool) where
  apply_env-IsComplete : (c : Config) → IsComplete c → IsComplete (apply_env getenv parse_bool c)
  unfolding apply_env
  apply_env-IsComplete c h = record {
    cluster = or_default-ne _ _ h.cluster;
    log_level = or_default-ne _ _ h.log_level;
    port = h.port;
    grace = h.grace;
    mode = h.mode;
    resync = or_default-ne _ _ h.resync;
    debounce = or_default-ne _ _ h.debounce;
    owner_team = h.owner_team;
    service = h.service;
    environment = h.environment;
    criticality = h.criticality;
  }

  module _ (quote : Text → Text) (read_file : Text → Outcome Text Text)
      (unmarshal : Text → Config → Outcome Text Config) where
    abbrev applied : Config → Config
    applied cfg = apply_env getenv parse_bool (normalize cfg)

    abbrev parsed : Text → Text → Outcome Text Config
    parsed path raw = in_file quote (str "parse") path (unmarshal raw default_config)

    abbrev rest : Text → Text → Outcome Text Config
    rest path raw = parsed path raw >>= λ cfg. ok (applied cfg)

    load_file-IsComplete :
        (path : Text) (c : Config)
        → load_file getenv parse_bool quote read_file unmarshal path ≡ ok c
        → IsComplete c
    load_file-IsComplete path c h =
        let first = chained (in_file quote (str "read") path (read_file path)) (rest path) h in
        let second = chained (parsed path first.value) (λ cfg. ok (applied cfg)) first.gave in
        subst IsComplete (ok_injective refl second.gave)
          (apply_env-IsComplete (normalize second.value) (normalize-IsComplete second.value))

    -- A configuration that is loaded, from a file or without one, and under whatever environment,
    -- has a cluster name, a log level, a port other than 0, a grace period, a discovery mode, both
    -- intervals and keys for each of the four labels, none of them empty.
    load-IsComplete :
        (path : Text) (c : Config)
        → load getenv parse_bool quote read_file unmarshal path ≡ ok c
        → IsComplete c
    unfolding load
    load-IsComplete path c h = elim (Bool-cases (trim_space path == [])) [
      | inl e ↦
          let same : ok (apply_env getenv parse_bool default_config) ≡ ok c = rw e at h in
          subst IsComplete (ok_injective refl same)
            (apply_env-IsComplete default_config default_config-IsComplete)
      | inr e ↦ load_file-IsComplete path c (rw e at h)
    ]
