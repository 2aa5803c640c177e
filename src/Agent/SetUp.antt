-- ===== src/Agent/SetUp.antt =====
-- What holds of an agent that was set up.
use kbeacon.Prelude.{
  ◌≡◌, ◌≢◌, refl, ap, ◌∙◌, subst, Bool, true, false, ◌&&◌, ◌||◌, not, Option, none, some, Outcome,
  ok, err, [], some_or, if◌then◌else◌, Bool-cases, inl, inr,
}
use kbeacon.Text.{Text, ◌==◌}
use kbeacon.Config.Types.{Config}
use kbeacon.Config.Load.Complete.{IsComplete, normalize-IsComplete}
use kbeacon.Controller.Namespaces.{includes, sees, sees-watch_namespace}
use kbeacon.Controller.Status.{Controller, enabled_syncs, start, status, is_ready}
use kbeacon.Controller.Status.Waiting.{every}
use kbeacon.Controller.Status.Ready.{start-is_ready}
use kbeacon.Server.Health.{ServerOptions, readyz}
use kbeacon.Agent.{
  Flags, Agent, agent_config, wants_dynamic_client, discovery_options, watched_resources, agent_of,
  with_flags, set_up, kept_options, durations_parse, clients_made,
}

-- Its configuration is complete, its parts agree on the cluster, which has a name, its informers see
-- every namespace that its filter lets through, and it is ready exactly if every informer synced, which
-- `/readyz` answers.
pub record IsSetUp (waits : Text → Bool) (a : Agent) : Type 0 where
  pub complete : IsComplete a.config
  pub cluster_named : a.cache.cluster ≢ []
  pub discovery_cluster : a.options.cluster ≡ a.cache.cluster
  pub collector_cluster : a.collector.cluster ≡ a.cache.cluster
  pub seen : (n : Text) → (includes a.filter n && not (sees a.watch n)) ≡ false
  pub ready : is_ready (start waits a.controller).0 ≡ every waits (enabled_syncs a.controller)
  pub server_cluster : a.server.cluster ≡ a.cache.cluster
  pub answered :
      (readyz a.server (some (status (start waits a.controller).0))).code
      ≡ (if every waits (enabled_syncs a.controller) then 200 else 503)

readyz-code :
    (s : ServerOptions) (c : Controller) (b : Bool)
    → is_ready c ≡ b
    → (readyz s (some (status c))).code ≡ (if b then 200 else 503)
unfolding readyz is_ready
readyz-code s c b h = ap (λ r. if r then 200 else 503) h

always : (x b : Bool) → x && (b || not b) ≡ x
always true true = refl
always true false = refl
always false b = refl

kept_cluster :
    (c : Config) → (kept_options c.cluster.name (discovery_options c)).cluster ≡ c.cluster.name
unfolding discovery_options
kept_cluster c = elim (Bool-cases (c.cluster.name == [])) [ inl e ↦ rw e refl | inr e ↦ rw e refl ]

module _ (env : Text → Text) (version commit : Text) (waits : Text → Bool) (f : Flags) where
  agent_of-ready :
      (c : Config)
      → let a = agent_of env version commit f c in
        is_ready (start waits a.controller).0 ≡ every waits (enabled_syncs a.controller)
  unfolding agent_of wants_dynamic_client watched_resources
  agent_of-ready c =
      let (one, two) = start-is_ready (wants_dynamic_client c) (some (watched_resources c)) waits in
      one ∙ always _ (wants_dynamic_client c)

  agent_of-IsSetUp :
      (loaded : Config) → IsSetUp waits (agent_of env version commit f (agent_config f loaded))
  unfolding agent_of agent_config
  agent_of-IsSetUp loaded =
      let c = agent_config f loaded in
      let complete = normalize-IsComplete (with_flags f loaded) in
      record {
        complete = complete;
        cluster_named = complete.cluster;
        discovery_cluster = kept_cluster c;
        collector_cluster = refl;
        seen = λ n. sees-watch_namespace _ _ n;
        ready = agent_of-ready c;
        server_cluster = refl;
        answered = readyz-code _ _ _ (agent_of-ready c);
      }

  -- Every agent that is set up, from whatever configuration, flags and environment, has a complete
  -- configuration; its cache, its discovery, its graph metrics and its server have the same cluster,
  -- which has a name; its informers see every namespace that its filter lets through; and once its
  -- controller has been started, it is ready exactly if every informer of an enabled resource
  -- synced, and /readyz is then answered with status 200, otherwise with 503. The informers of enabled
  -- custom resources count like the others, also where a custom resource has no definition in the
  -- cluster and its informer cannot sync.
  pub set_up-IsSetUp :
      {Duration : Type 0} (parse_duration : Text → Option Duration)
      (client_made dynamic_client_made : Bool) (loaded : Outcome Text Config) (a : Agent)
      → set_up env version commit parse_duration client_made dynamic_client_made f loaded ≡ some a
      → IsSetUp waits a
  unfolding set_up
  set_up-IsSetUp parse_duration client_made dynamic_client_made (err message) a h = cc
  set_up-IsSetUp parse_duration client_made dynamic_client_made (ok loaded) a h =
      let c = agent_config f loaded in
      elim (Bool-cases (
        durations_parse env version commit parse_duration client_made dynamic_client_made c
        && clients_made env version commit parse_duration client_made dynamic_client_made c)) [
          | inl e ↦
              let same : some (agent_of env version commit f c) ≡ some a = rw e at h in
              subst (IsSetUp waits) (ap (some_or (agent_of env version commit f c)) same)
                (agent_of-IsSetUp loaded)
          | inr e ↦ let same : none ≡ some a = rw e at h in cc
        ]
