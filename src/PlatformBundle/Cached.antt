-- ===== src/PlatformBundle/Cached.antt =====
-- The cache of platform bundles keeps what was downloaded first (platformbundle.go).
use infra_onboarding.Prelude.{
  ◌≡◌, refl, sym, ap, ◌∙◌, String, Option, none, some, List, [], ◌∷◌, inl, inr, ◌||◌, Bool-cases,
  ◌==◌, ==-false, ==-true, string_has_eq,
}
use infra_onboarding.Api.Errors.{Result, ok, err}
use infra_onboarding.Api.Calls.{History, cache_store}
use infra_onboarding.Api.Env.{Env}
use infra_onboarding.Act.{Outcome, done, panic, pure, continue, ok_or_stop, ask, ◌>>=◌, ◌on_ok◌}
use infra_onboarding.Act.Past.{on_ok-split}
use infra_onboarding.PlatformBundle.{
  cached, download_platform_bundle, load_or_download, store_and_return, fetch_platform_bundle_data,
  validate_and_parse_artifact_url,
}

stored_first :
    (a content : String) (h : History) → cached a (cache_store a content ∷ h) ≡ some content
unfolding cached
stored_first a content h = rw (==-true a a refl) refl

stored_other :
    (a b content : String) (h : History)
    → ¬ (b ≡ a)
    → cached a (cache_store b content ∷ h) ≡ cached a h
unfolding cached
stored_other a b content h n = rw (==-false b a n) refl

module _ {E : Type 0} (env : Env E) where
  -- A download leaves the cache alone.
  download-cached :
      (a repo tag : String) (h : History)
      → cached a (download_platform_bundle env repo tag h).1 ≡ cached a h
  unfolding download_platform_bundle cached
  download-cached a repo tag h = elim (Bool-cases (repo == "" || tag == "")) [
    | inl e ↦ rw e refl
    | inr e ↦ rw e refl
  ]

  store-keeps :
      (a b s : String) (o : Outcome (Result E String)) (h : History)
      → cached a h ≡ some s
      → ¬ (b ≡ a)
      → cached a (continue (ok_or_stop (store_and_return env b)) (o, h)).1 ≡ some s
  store-keeps a b s (done (ok content)) h e n = stored_other a b content h n ∙ e
  store-keeps a b s (done (err x)) h e n = e
  store-keeps a b s panic h e n = e

  load-keeps :
      (a b s : String) (r : String × String) (found : Option String) (h : History)
      → cached b h ≡ found
      → cached a h ≡ some s
      → cached a (load_or_download env b r found h).1 ≡ some s
  unfolding load_or_download
  load-keeps a b s r (some content) h f e = e
  load-keeps a b s r none h f e =
      let d = download_platform_bundle env r.0 r.1 h in
      store-keeps a b s d.0 d.1 (download-cached a r.0 r.1 h ∙ e) (λ same. cc)

  -- What the cache holds of one artifact, it holds after any fetch.
  fetch-keeps :
      (a b s : String) (r : Result E (String × String)) (h : History)
      → cached a h ≡ some s
      → cached a ((pure r on_ok λ p. ask (cached b) >>= load_or_download env b p) h).1 ≡ some s
  fetch-keeps a b s (ok p) h e = load-keeps a b s p (cached b h) h refl e
  fetch-keeps a b s (err x) h e = e

  -- fetches of several artifacts, one after the other, whatever each gives
  abbrev pub after_fetches : List String → History → History
  after_fetches [] h = h
  after_fetches (b ∷ bs) h = after_fetches bs (fetch_platform_bundle_data env b h).1

  all-keep :
      (a s : String) (bs : List String) (h : History)
      → cached a h ≡ some s
      → cached a (after_fetches bs h) ≡ some s
  unfolding fetch_platform_bundle_data
  all-keep a s [] h e = e
  all-keep a s (b ∷ bs) h e =
      all-keep a s bs (fetch_platform_bundle_data env b h).1
        (fetch-keeps a b s (validate_and_parse_artifact_url env b) h e)

  stored_result :
      (a content s : String) (h g : History)
      → store_and_return env a content h ≡ (done (ok s), g)
      → cached a g ≡ some s
  stored_result a content s h g q =
      ap (cached a) (sym (ap (λ p. p.1) q)) ∙ stored_first a content h ∙ (cc)

  load-stores :
      (a s : String) (r : String × String) (found : Option String) (h g : History)
      → cached a h ≡ found
      → load_or_download env a r found h ≡ (done (ok s), g)
      → cached a g ≡ some s
  unfolding load_or_download
  load-stores a s r (some content) h g f q = cc
  load-stores a s r none h g f q =
      let (content, mid, d, k) =
        on_ok-split (download_platform_bundle env r.0 r.1) (store_and_return env a) h g s q in
      stored_result a content s mid g k

  -- a fetch of an artifact whose URL is read, by what the cache holds
  read-stores :
      (a s : String) (v : Result E (String × String)) (h g : History)
      → (pure v on_ok λ p. ask (cached a) >>= load_or_download env a p) h ≡ (done (ok s), g)
      → (r : String × String) × (v ≡ ok r) × (cached a g ≡ some s)
  read-stores a s (ok r) h g q = (r, refl, load-stores a s r (cached a h) h g refl q)
  read-stores a s (err x) h g q = absurd (cc)

  cached-returns :
      (a s : String) (v : Result E (String × String)) (r : String × String) (h : History)
      → v ≡ ok r
      → cached a h ≡ some s
      → (pure v on_ok λ p. ask (cached a) >>= load_or_download env a p) h ≡ (done (ok s), h)
  unfolding load_or_download
  cached-returns a s v r h e c = rw (e, c) refl

  -- Once the fetch of an artifact has given a content, a fetch of the same artifact gives that content
  -- again and makes no call, whatever artifacts were fetched in between, and whatever those fetches gave.
  pub fetched_once :
      (a s : String) (h g : History) (bs : List String)
      → fetch_platform_bundle_data env a h ≡ (done (ok s), g)
      → fetch_platform_bundle_data env a (after_fetches bs g) ≡ (done (ok s), after_fetches bs g)
  unfolding fetch_platform_bundle_data
  fetched_once a s h g bs q =
      let v = validate_and_parse_artifact_url env a in
      let (r, e, c) = read-stores a s v h g q in
      cached-returns a s v r (after_fetches bs g) e (all-keep a s bs g c)
