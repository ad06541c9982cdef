-- ===== src/Southbound/Lookup/Agreement.antt =====
-- Which host a request is about, where the lookup gives one (grpc_server.go).
use infra_onboarding.Prelude.{
  ◌≡◌, ◌≢◌, refl, sym, subst, ap, ◌⊎◌, inl, inr, String, Bool, true, false, not, Option, none, some,
  ◌==◌, string_has_eq, if◌then◌else◌,
}
use infra_onboarding.Api.Resources.{HostResource}
use infra_onboarding.Api.Errors.{Result, ok, err}
use infra_onboarding.Api.Calls.{Field, History}
use infra_onboarding.Api.Env.{Env}
use infra_onboarding.Act.{Outcome, done, panic, Act, pure, continue, ◌>>=◌}
use infra_onboarding.Onboardingmgr.{OnboardNodeStreamRequest}
use infra_onboarding.Status.{ResourceStatus}
use infra_onboarding.Inventory.Lookups.{get_host_resource}
use infra_onboarding.Inventory.Registration.{update_host_resource, update_host_reg_state}
use infra_onboarding.Southbound.Lookup.{
  not_found_after, fail_registration, resolve_matches, adopted, adopt_uuid, first_found,
  after_serial_lookup, without_serial, look_up_serial, after_uuid_lookup, get_host_of_request,
}

-- What comes after an action has given a value: then the action has.
continue-done {ℓ κ} :
    {A : Type ℓ} {B : Type κ} (f : A → Act B) (o : Outcome A) (g : History) (b : B)
    → (continue f (o, g)).0 ≡ done b
    → (a : A) × (o ≡ done a) × ((f a g).0 ≡ done b)
continue-done f (done a) g b q = (a, refl, q)
continue-done f panic g b q = absurd (cc)

read_eq : (a b : String) → (a == b) ≡ true → a ≡ b
read_eq a b e = (string_has_eq.equals_iff a b).0 e

module _ {E : Type 0} (env : Env E) (req : OnboardNodeStreamRequest) where
  -- At some time, the lookup by the field gave the host.
  abbrev pub Found : Field → String → HostResource → Type 0
  Found field value host =
      (h : History) × ((get_host_resource env field value h).0 ≡ done (ok host))

  -- The reasons for which a host is the one that the request is about.
  pub data Agrees : HostResource → Type 0 where
    -- It was found by the UUID, and the inventory knows no serial number of it.
    no_known_serial :
        (host : HostResource)
        → Found Field.uuid req.uuid host
        → host.serial_number ≡ ""
        → Agrees host
    -- It was found by the UUID, and the request has no serial number.
    no_sent_serial :
        (host : HostResource) → Found Field.uuid req.uuid host → req.serialnum ≡ "" → Agrees host
    -- Both lookups gave it.
    both :
        (host other : HostResource)
        → Found Field.uuid req.uuid host
        → Found Field.serial_number req.serialnum other
        → host.resource_id ≡ other.resource_id
        → Agrees host
    -- It was found with no UUID in the inventory, and has been given that of the request.
    named :
        (found : HostResource)
        → (Found Field.uuid req.uuid found ⊎ Found Field.serial_number req.serialnum found)
        → found.uuid ≡ ""
        → Agrees (record found { uuid = req.uuid })

  abbrev Known : Field → String → Option HostResource → Type 0
  Known field value none = Unit
  Known field value (some x) = Found field value x

  never_ok :
      (field : Field) (detail : String) (o : Outcome (Option E)) (g : History) (host : HostResource)
      → (continue (λ e. pure (not_found_after env field detail e)) (o, g)).0 ≢ done (ok host)
  never_ok field detail (done none) g host = λ q. absurd (cc)
  never_ok field detail (done (some e)) g host = λ q. absurd (cc)
  never_ok field detail panic g host = λ q. absurd (cc)

  fail_never_ok :
      (x : HostResource) (field : Field) (detail : String) (s : ResourceStatus) (h : History)
      (host : HostResource)
      → (fail_registration env x field detail s h).0 ≢ done (ok host)
  unfolding fail_registration
  fail_never_ok x field detail s h host =
      never_ok field detail
        (update_host_reg_state env x.tenant_id x.resource_id x.current_state "" "" s h).0
        (update_host_reg_state env x.tenant_id x.resource_id x.current_state "" "" s h).1 host

  same_id :
      (u s : HostResource) (b : Bool) (x : E) (h : History) (host : HostResource)
      → (u.resource_id == s.resource_id) ≡ b
      → ((if not b then pure (err x) else pure (ok u)) h).0 ≡ done (ok host)
      → (host ≡ u) × (u.resource_id ≡ s.resource_id)
  same_id u s true x h host e q = (cc, read_eq u.resource_id s.resource_id e)
  same_id u s false x h host e q = absurd (cc)

  resolved :
      (u s : Option HostResource) (h : History) (host : HostResource)
      → Known Field.uuid req.uuid u
      → Known Field.serial_number req.serialnum s
      → (resolve_matches env req u s h).0 ≡ done (ok host)
      → Agrees host
  unfolding resolve_matches
  resolved (some u) (some s) h host k l q =
      let (e, ids) = same_id u s (u.resource_id == s.resource_id) _ h host refl q in
      subst Agrees (sym e) (both u s k l ids)
  resolved (some u) none h host k l q = absurd (fail_never_ok u _ _ _ h host q)
  resolved none (some s) h host k l q = absurd (fail_never_ok s _ _ _ h host q)
  resolved none none h host k l q = absurd (cc)

  takes_name :
      (x : HostResource) (o : Outcome (Option E)) (g : History) (host : HostResource)
      → (continue (λ e. pure (adopted env x e)) (o, g)).0 ≡ done (ok host)
      → host ≡ x
  takes_name x (done none) g host q = cc
  takes_name x (done (some e)) g host q = absurd (cc)
  takes_name x panic g host q = absurd (cc)

  adoption :
      (x : HostResource) (h : History) (host : HostResource)
      → (adopt_uuid env req x h).0 ≡ done (ok host)
      → host ≡ record x { uuid = req.uuid }
  unfolding adopt_uuid
  adoption x h host q =
      let renamed = record x { uuid = req.uuid } in
      let o = update_host_resource env x.tenant_id renamed h in takes_name renamed o.0 o.1 host q

  look_first :
      (u : Option HostResource) (s : HostResource)
      → Known Field.uuid req.uuid u
      → Found Field.serial_number req.serialnum s
      → Found Field.uuid req.uuid (first_found env u s)
        ⊎ Found Field.serial_number req.serialnum (first_found env u s)
  look_first none s k l = inr l
  look_first (some u) s k l = inl k

  -- an error or the rest, by a test
  if_ok :
      (b : Bool) (m : Act (Result E HostResource)) (e : E) (h : History) (host : HostResource)
      → ((if b then m else pure (err e)) h).0 ≡ done (ok host)
      → (m h).0 ≡ done (ok host)
  if_ok true m e h host q = q
  if_ok false m e h host q = absurd (cc)

  -- a host without a UUID, or the matches
  adopted_or_resolved :
      (u : Option HostResource) (s : HostResource) (b : Bool) (h : History) (host : HostResource)
      → Known Field.uuid req.uuid u
      → Found Field.serial_number req.serialnum s
      → ((first_found env u s).uuid == "") ≡ b
      → ((if b
            then adopt_uuid env req (first_found env u s)
            else resolve_matches env req u (some s))
          h).0
        ≡ done (ok host)
      → Agrees host
  adopted_or_resolved u s true h host k l e q =
      subst Agrees (sym (adoption (first_found env u s) h host q))
        (named (first_found env u s) (look_first u s k l) (read_eq _ "" e))
  adopted_or_resolved u s false h host k l e q = resolved u (some s) h host k l q

  after_serial :
      (u : Option HostResource) (r : Result E HostResource) (g h : History) (host : HostResource)
      → Known Field.uuid req.uuid u
      → (get_host_resource env Field.serial_number req.serialnum g).0 ≡ done r
      → (after_serial_lookup env req u r h).0 ≡ done (ok host)
      → Agrees host
  unfolding after_serial_lookup
  after_serial u (err e) g h host k l q =
      resolved u none h host k tt
        (if_ok (env.is_not_found (some e)) (resolve_matches env req u none) _ h host q)
  after_serial u (ok s) g h host k l q =
      adopted_or_resolved u s ((first_found env u s).uuid == "") h host k (g, l) refl q

  unsent :
      (u : Option HostResource) (h : History) (host : HostResource)
      → Known Field.uuid req.uuid u
      → req.serialnum ≡ ""
      → (without_serial env req u h).0 ≡ done (ok host)
      → Agrees host
  unsent none h host k e q = resolved none none h host k tt q
  unsent (some u) h host k e q = subst Agrees (cc) (no_sent_serial u k e)

  by_serial :
      (u : Option HostResource) (b : Bool) (h : History) (host : HostResource)
      → Known Field.uuid req.uuid u
      → (req.serialnum == "") ≡ b
      → ((if b
            then without_serial env req u
            else get_host_resource env Field.serial_number req.serialnum
              >>= after_serial_lookup env req u)
          h).0
        ≡ done (ok host)
      → Agrees host
  by_serial u true h host k e q = unsent u h host k (read_eq req.serialnum "" e) q
  by_serial u false h host k e q =
      let o = get_host_resource env Field.serial_number req.serialnum h in
      let (r, l, p) = continue-done (after_serial_lookup env req u) o.0 o.1 (ok host) q in
      after_serial u r h o.1 host k l p

  serial_looked_up :
      (u : Option HostResource) (h : History) (host : HostResource)
      → Known Field.uuid req.uuid u
      → (look_up_serial env req u h).0 ≡ done (ok host)
      → Agrees host
  unfolding look_up_serial
  serial_looked_up u h host k q = by_serial u (req.serialnum == "") h host k refl q

  known_or_serial :
      (u : HostResource) (b : Bool) (h : History) (host : HostResource)
      → Found Field.uuid req.uuid u
      → (u.serial_number == "") ≡ b
      → ((if b then pure (ok u) else look_up_serial env req (some u)) h).0 ≡ done (ok host)
      → Agrees host
  known_or_serial u true h host k e q =
      subst Agrees (cc) (no_known_serial u k (read_eq u.serial_number "" e))
  known_or_serial u false h host k e q = serial_looked_up (some u) h host k q

  after_uuid :
      (r : Result E HostResource) (g h : History) (host : HostResource)
      → (get_host_resource env Field.uuid req.uuid g).0 ≡ done r
      → (after_uuid_lookup env req r h).0 ≡ done (ok host)
      → Agrees host
  unfolding after_uuid_lookup
  after_uuid (err e) g h host l q =
      serial_looked_up none h host tt
        (if_ok (env.is_not_found (some e)) (look_up_serial env req none) _ h host q)
  after_uuid (ok u) g h host l q = known_or_serial u (u.serial_number == "") h host (g, l) refl q

  uuid_or_serial :
      (b : Bool) (h : History) (host : HostResource)
      → ((if b
            then look_up_serial env req none
            else get_host_resource env Field.uuid req.uuid >>= after_uuid_lookup env req)
          h).0
        ≡ done (ok host)
      → Agrees host
  uuid_or_serial true h host q = serial_looked_up none h host tt q
  uuid_or_serial false h host q =
      let o = get_host_resource env Field.uuid req.uuid h in
      let (r, l, p) = continue-done (after_uuid_lookup env req) o.0 o.1 (ok host) q in
      after_uuid r h o.1 host l p

  -- A host that the lookup for a request gives agrees with the request: it was found by the UUID of the
  -- request, with no serial number in the inventory or none in the request; or it was found by the
  -- UUID and the host with the serial number of the request is the same; or it had no UUID and takes
  -- that of the request.
  pub found_host-Agrees :
      (h g : History) (host : HostResource)
      → get_host_of_request env req h ≡ (done (ok host), g)
      → Agrees host
  unfolding get_host_of_request
  found_host-Agrees h g host q = uuid_or_serial (req.uuid == "") h host (ap (λ o. o.0) q)
