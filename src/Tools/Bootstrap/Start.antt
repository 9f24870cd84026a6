-- ===== src/Tools/Bootstrap/Start.antt =====
-- What a started tool can rely on (skill/src/tools/cli.ts).
use pinch.Prelude.{
  ℕ, String, ◌≡◌, ◌≢◌, refl, ap, subst, true, false, ◌==◌, ◌or◌, none, some, inl, inr, List, arith,
  Bool-cases, eq_iff,
}
use pinch.Connections.{Connection, get_connection}
use pinch.Identity.KeyFile.{Keypair, KeyCodec}
use pinch.RelayClient.{is_resolved, Protocol, Promise, Event, connect, run}
use pinch.RelayClient.Admission.{HasSuccess}
use pinch.RelayClient.Handshake.{Answered}
use pinch.RelayClient.Kept.{KeptAfter, kept_promise_needs_admission}
use pinch.Tools.Control.{bootstrap_ends_interventions}
use pinch.Tools.Bootstrap.{
  Environment, Disk, Process, Awaited, returned, raised, waiting, BootstrapResult, client_config,
  keypair_of, prepared, connected_client, components, bootstrap, awaited,
}

module _ (kc : KeyCodec) (now : ℕ) (fresh : Keypair) (pr : Protocol) (env : Environment)
    (es : List Event) where
  -- The relay was given a valid answer and let the client in, and no connection is taken over.
  abbrev pub IsStarted : Disk → BootstrapResult → Type 0
  IsStarted d r =
      (r.keypair ≡ keypair_of kc now fresh d)
      × ((addr : String) (c : Connection)
          → get_connection addr r.connection_store ≡ some c
          → (c.passthrough or false) ≡ false)
      × ((front : List Event) × KeptAfter (client_config pr env r.keypair) es front
            (connect none 0 false 0)
          × Answered (client_config pr env r.keypair)
              (run (client_config pr env r.keypair) front (connect none 0 false 0)).sent
          × HasSuccess (client_config pr env r.keypair) front)

  awaited_returns :
      (p : Process) (r s : BootstrapResult) (x : Promise)
      → (awaited kc now fresh pr env es p r x).1 ≡ returned s
      → (is_resolved x ≡ true) × (r ≡ s)
  awaited_returns p r s Promise.resolved h = (refl, ap kept_of h)
    where
      kept_of : Awaited BootstrapResult → BootstrapResult
      kept_of (returned a) = a
      kept_of (raised e) = r
      kept_of waiting = r
  awaited_returns p r s (Promise.rejected e) h = absurd (ground (arith, h))
  awaited_returns p r s Promise.pending h = absurd (ground (arith, h))

  components-IsStarted :
      (d : Disk)
      → is_resolved (connected_client kc now fresh pr env es d).promise ≡ true
      → IsStarted d (components kc now fresh pr env es d)
  components-IsStarted d h = (
    refl,
    bootstrap_ends_interventions d.connections,
    kept_promise_needs_admission (client_config pr env (keypair_of kc now fresh d)) es none 0 false
        0 h,
  )

  -- A tool that `bootstrap` starts anew has a relay's URL, the keys of the key file or new ones, and a
  -- client that the relay has let in on a valid answer, and its store has no connection in passthrough
  -- mode.
  pub bootstrap_needs_admission :
      (p : Process) (r : BootstrapResult)
      → p.bootstrapped ≡ none
      → (bootstrap kc now fresh pr env es p).1 ≡ returned r
      → ((env.relay_url or "") ≢ "") × IsStarted p.disk r
  unfolding bootstrap
  bootstrap_needs_admission p r n h = elim (Bool-cases ((env.relay_url or "") == "")) [
    | inl y ↦ absurd (ground (arith, n, y, h))
    | inr y ↦
        let (k, same) =
          awaited_returns (record p { disk = prepared kc now fresh p.disk })
            (components kc now fresh pr env es p.disk) r
            (connected_client kc now fresh pr env es p.disk).promise (ground (arith, n, y, h)) in
        (
          λ e. absurd (ground (arith, y, eq_iff (env.relay_url or "") "", e)),
          subst (IsStarted p.disk) same (components-IsStarted p.disk k),
        )
  ]
