-- ===== src/Cli/Commands/SetGet.antt =====
-- A setting that was set is read back, and the others are kept.
use kbeacon.Prelude.{
  ◌≡◌, refl, sym, ap, ◌∙◌, false, Option, none, some, Outcome, ok, err, chained, ok_injective, [],
  ◌∷◌, ◌++◌, arith, if◌then◌else◌, Bool-cases, inl, inr,
}
use kbeacon.Text.{
  Text, str, ◌==◌, trim_space, trim_left, trim_right, is_space, to_lower, lower_byte, elem,
}
use kbeacon.Cli.Settings.{
  CliConfig, empty_config, normalize_cli_config_key, set_cli_config_value, cli_config_value,
}
use kbeacon.Cli.Settings.Store.{IsKey, IsKey-normalize, value-set}
use kbeacon.Cli.ConfigFile.{
  System, parsed, FileRead, absent, unreadable, contents, cli_config_path, load_cli_config,
  save_cli_config, read_config, write_config, written,
}
use kbeacon.Cli.Commands.{Ran, done, saved, run_config, run_set, set_report}

module _ {ℓ} {S : Type ℓ} (sys : System S) where
  -- A file that was written without an error holds what was written.
  pub record ReadsBack : Type ℓ where
    pub written :
        (s t : S) (path raw : Text)
        → sys.write_file s path raw ≡ (t, none)
        → sys.read_file t path ≡ contents raw

  -- The JSON of the settings, with a line end after it, is not blank and is decoded to them.
  pub record Decodes (cfg : CliConfig) (raw : Text) : Type 0 where
    pub not_blank : (trim_space (raw ++ (b'\n' ∷ [])) == []) ≡ false
    pub decoded : sys.unmarshal (raw ++ (b'\n' ∷ [])) ≡ ok cfg

  module _ (reads : ReadsBack) (cfg : CliConfig)
      (decodes : (raw : Text) → sys.marshal cfg ≡ ok raw → Decodes cfg raw) (report : Text → Text)
      (path : Text) where
    abbrev Kept : S × Outcome Text Text → Type 0
    Kept p =
        (saved sys report p).exit.status ≡ 0
        → read_config sys path (sys.read_file (saved sys report p).state path) ≡ ok (cfg, path)

    written-Kept :
        (s : S) (raw : Text) (w : S × Option Text)
        → sys.write_file s path (raw ++ (b'\n' ∷ [])) ≡ w
        → Decodes cfg raw
        → Kept (written sys path w)
    written-Kept s raw (t, some message) e d h = absurd (omega arith)
    written-Kept s raw (t, none) e d h =
        rw (reads.written s t path (raw ++ (b'\n' ∷ [])) e, d.not_blank, d.decoded) refl

    write_config-Kept :
        (made : S × Option Text) (m : Outcome Text Text)
        → sys.marshal cfg ≡ m
        → Kept (write_config sys path made m)
    write_config-Kept (s, some message) m e h = absurd (omega arith)
    write_config-Kept (s, none) (err message) e h = absurd (omega arith)
    write_config-Kept (s, none) (ok raw) e h =
        written-Kept s raw (sys.write_file s path (raw ++ (b'\n' ∷ []))) refl (decodes raw e) h

    save-Kept :
        (s : S) (config_path : Text)
        → cli_config_path sys config_path ≡ ok path
        → Kept (save_cli_config sys s config_path cfg)
    unfolding save_cli_config
    save-Kept s config_path at h = rw at (
        write_config-Kept (sys.mkdir_all s (sys.directory path)) (sys.marshal cfg) refl
          (rw at at h))

  abbrev pair_path : CliConfig × Text → Text
  pair_path (c, p) = p

  parsed-path :
      (p : Text) (o : Outcome Text CliConfig) (cfg : CliConfig) (path : Text)
      → parsed sys p o ≡ ok (cfg, path)
      → p ≡ path
  parsed-path p (err message) cfg path h = ground arith
  parsed-path p (ok c) cfg path h = cc

  read_config-path :
      (p : Text) (found : FileRead) (cfg : CliConfig) (path : Text)
      → read_config sys p found ≡ ok (cfg, path)
      → p ≡ path
  read_config-path p absent cfg path h = cc
  read_config-path p (unreadable message) cfg path h = ground arith
  read_config-path p (contents raw) cfg path h = elim (Bool-cases (trim_space raw == [])) [
    | inl e ↦
        let same : ok (empty_config, p) ≡ ok (cfg, path) = rw e at h in
        ap pair_path (ok_injective refl same)
    | inr e ↦ parsed-path p (sys.unmarshal raw) cfg path (rw e at h)
  ]

  load-path :
      (s : S) (config_path : Text) (cfg : CliConfig) (path : Text)
      → load_cli_config sys s config_path ≡ ok (cfg, path)
      → cli_config_path sys config_path ≡ ok path
  unfolding load_cli_config
  load-path s config_path cfg path h =
      let first =
        chained (cli_config_path sys config_path) (λ p. read_config sys p (sys.read_file s p)) h in
      rw (← read_config-path first.value (sys.read_file s first.value) cfg path first.gave)
        first.went

  module _ (reads : ReadsBack) (s : S) (config_path name key value : Text) (cfg : CliConfig)
      (path : Text) (named : normalize_cli_config_key sys.quote name ≡ ok key)
      (loaded : load_cli_config sys s config_path ≡ ok (cfg, path))
      (decodes : (raw : Text)
        → sys.marshal (set_cli_config_value cfg key (trim_space value)) ≡ ok raw
        → Decodes (set_cli_config_value cfg key (trim_space value)) raw) where
    abbrev set : Ran S
    set = run_config sys s config_path (str "set" ∷ name ∷ value ∷ [])

    abbrev new : CliConfig
    new = set_cli_config_value cfg key (trim_space value)

    abbrev stored : Ran S
    stored =
        saved sys (set_report sys key (trim_space value)) (save_cli_config sys s config_path new)

    run_set-saved :
        (v : Text)
        → (run_set sys s config_path v (ok key)).exit.status ≡ 0
        → run_set sys s config_path v (ok key)
          ≡ saved sys
              (set_report sys key v)
              (save_cli_config sys s config_path (set_cli_config_value cfg key v))
    run_set-saved v h = elim (Bool-cases (v == [])) [
      | inl blank ↦ absurd (let two : 2 ≡ 0 = rw blank at h in omega arith)
      | inr given ↦ rw (given, loaded) refl
    ]

    set-eq : set ≡ run_set sys s config_path (trim_space value) (ok key)
    unfolding run_config ◌==◌ elem to_lower lower_byte trim_space trim_left trim_right is_space
    set-eq = rw named refl

    set-saved : set.exit.status ≡ 0 → set ≡ stored
    set-saved h =
        set-eq ∙ run_set-saved (trim_space value) (ap (λ r. r.exit.status) (sym set-eq) ∙ h)

    load-stored :
        stored.exit.status ≡ 0 → load_cli_config sys stored.state config_path ≡ ok (new, path)
    unfolding load_cli_config
    load-stored h =
        let at = load-path s config_path cfg path loaded in
        rw at (
          save-Kept reads new decodes (set_report sys key (trim_space value)) path s config_path at
            h)

    run_get-exit :
        (t : S) (other other_key : Text)
        → normalize_cli_config_key sys.quote other ≡ ok other_key
        → load_cli_config sys t config_path ≡ ok (new, path)
        → (run_config sys t config_path (str "get" ∷ other ∷ [])).exit
          ≡ done (cli_config_value new other_key)
    unfolding run_config ◌==◌ elem to_lower lower_byte trim_space trim_left trim_right is_space
    run_get-exit t other other_key asked h = rw (asked, h) refl

    value-new :
        (other_key : Text)
        → IsKey key
        → IsKey other_key
        → cli_config_value new other_key
          ≡ (if key == other_key then trim_space value else cli_config_value cfg other_key)
    value-new other_key k o = rw (k.same, o.same) (value-set cfg (trim_space value) k.of o.of)

    -- If a file that was written without an error holds what was written, and the JSON of the
    -- changed settings is decoded to them, then after a setting was set with status 0, asking for
    -- a setting, under any of its names, prints the trimmed value if it is the same one, and
    -- otherwise what it was before.
    pub run_config-set_get :
        (other other_key : Text)
        → normalize_cli_config_key sys.quote other ≡ ok other_key
        → set.exit.status ≡ 0
        → (run_config sys set.state config_path (str "get" ∷ other ∷ [])).exit
          ≡ done (if key == other_key then trim_space value else cli_config_value cfg other_key)
    run_config-set_get other other_key asked h =
        let same = set-saved h in
        rw same (
          run_get-exit stored.state other other_key asked
            (load-stored (ap (λ r. r.exit.status) (sym same) ∙ h))
          ∙ ap done (
              value-new other_key (IsKey-normalize sys.quote name key named)
                (IsKey-normalize sys.quote other other_key asked)))
