-- ===== src/Tinkerbell/Images/Format.antt =====
-- Which images are taken for qcow2 (template_data.go).
use infra_onboarding.Prelude.{
  ℕ, ◌≡◌, refl, ap, sym, ◌∙◌, ◌⊎◌, inl, inr, ◌↔◌, ◌||◌, String, true, false, none, some, List, [],
  ◌∷◌, trim_space, contains, nat_eq, arith, Bool-cases, Option-cases, string_has_eq,
}
use infra_onboarding.Api.Errors.{Result, ok, err}
use infra_onboarding.Api.Calls.{History, http_get}
use infra_onboarding.Api.Env.{Env}
use infra_onboarding.Act.{done}
use infra_onboarding.Act.Past.{done-injective}
use infra_onboarding.Tinkerbell.Images.{
  is_magic, read_magic, format_of_response, probe, proxy_of, detect_image_format,
  qcow2_image_format, raw_image_format,
}

magic_bytes :
    (a b c d : ℕ) → is_magic a b c d ≡ true → (a ≡ b'Q') × (b ≡ b'F') × (c ≡ b'I') × (d ≡ 251)
unfolding is_magic
magic_bytes a b c d h = ground arith

-- The body begins with the magic number of qcow2.
pub record StartsWithMagic (body : List ℕ) : Type 0 where
  pub rest : List ℕ
  pub bytes : body ≡ b'Q' ∷ b'F' ∷ b'I' ∷ 251 ∷ rest

raw_is_not_qcow2 : ¬ (raw_image_format ≡ qcow2_image_format)
raw_is_not_qcow2 e = cc

unread_raw :
    (a b c d : ℕ) (rest : List ℕ)
    → is_magic a b c d ≡ false
    → read_magic (a ∷ b ∷ c ∷ d ∷ rest) ≡ raw_image_format
unfolding read_magic
unread_raw a b c d rest m = rw m

unread :
    (a b c d : ℕ) (rest : List ℕ)
    → is_magic a b c d ≡ false
    → read_magic (a ∷ b ∷ c ∷ d ∷ rest) ≡ qcow2_image_format
    → raw_image_format ≡ qcow2_image_format
unfolding read_magic
unread a b c d rest m q = sym (unread_raw a b c d rest m) ∙ q

read_magic_starts : (body : List ℕ) → read_magic body ≡ qcow2_image_format → StartsWithMagic body
unfolding read_magic
read_magic_starts [] q = absurd (raw_is_not_qcow2 q)
read_magic_starts (a ∷ []) q = absurd (raw_is_not_qcow2 q)
read_magic_starts (a ∷ b ∷ []) q = absurd (raw_is_not_qcow2 q)
read_magic_starts (a ∷ b ∷ c ∷ []) q = absurd (raw_is_not_qcow2 q)
read_magic_starts (a ∷ b ∷ c ∷ d ∷ rest) q = elim (Bool-cases (is_magic a b c d)) [
  | inl m ↦
      let (ea, eb, ec, ed) = magic_bytes a b c d m in
      record { rest = rest; bytes = rw (ea, eb, ec, ed) refl }
  | inr m ↦ absurd (raw_is_not_qcow2 (unread a b c d rest m q))
]

magic_read : (body : List ℕ) → StartsWithMagic body → read_magic body ≡ qcow2_image_format
unfolding read_magic is_magic
magic_read body s = rw (s.bytes) refl

status_accepted :
    (status : ℕ) → (nat_eq status 206 || nat_eq status 200) ≡ true → (status ≡ 206) ⊎ (status ≡ 200)
status_accepted status t = ground arith

true_is_not_false : ¬ (true ≡ false)
true_is_not_false e = cc

err_is_not_ok {ℓ} : {E : Type 0} {A : Type ℓ} (e : E) (a : A) → ¬ (err e ≡ ok a)
err_is_not_ok e a q = cc

none_is_not_some {ℓ} : {A : Type ℓ} (a : A) → ¬ (none ≡ some a)
none_is_not_some a q = cc

module _ {E : Type 0} (env : Env E) where
  -- a response with a status of success whose body begins with the magic number
  pub record HasMagic (response : Result E (ℕ × List ℕ)) : Type 0 where
    pub status : ℕ
    pub body : List ℕ
    pub answered : response ≡ ok (status, body)
    pub accepted : (status ≡ 206) ⊎ (status ≡ 200)
    pub magic : StartsWithMagic body

  response_read :
      (status : ℕ) (body : List ℕ)
      → (status ≡ 206) ⊎ (status ≡ 200)
      → format_of_response env (ok (status, body)) ≡ read_magic body
  unfolding format_of_response
  response_read status body (inl e) = rw e refl
  response_read status body (inr e) = rw e refl

  response_raw :
      (status : ℕ) (body : List ℕ)
      → (nat_eq status 206 || nat_eq status 200) ≡ false
      → format_of_response env (ok (status, body)) ≡ raw_image_format
  unfolding format_of_response
  response_raw status body e = rw e

  response_iff :
      (r : Result E (ℕ × List ℕ)) → (format_of_response env r ≡ qcow2_image_format) ↔ HasMagic r
  unfolding format_of_response
  response_iff (err e) = (
    λ q. absurd (raw_is_not_qcow2 q),
    λ m. absurd (err_is_not_ok e (m.status, m.body) m.answered),
  )
  response_iff (ok (status, body)) = (
    λ q. elim (Bool-cases (nat_eq status 206 || nat_eq status 200)) [
      | inl t ↦
          let accepted = status_accepted status t in
          record {
            status = status;
            body = body;
            answered = refl;
            accepted = accepted;
            magic = read_magic_starts body (sym (response_read status body accepted) ∙ q);
          }
      | inr f ↦ absurd (raw_is_not_qcow2 (sym (response_raw status body f) ∙ q))
    ],
    λ m.
        ap (format_of_response env) m.answered
        ∙ response_read m.status m.body m.accepted
        ∙ magic_read m.body m.magic,
  )

  no_img :
      (url p : String) (h : History)
      → contains (trim_space url) ".img" ≡ false
      → detect_image_format env url p h ≡ (done raw_image_format, h)
  unfolding detect_image_format
  no_img url p h n = rw n

  no_request :
      (url p : String) (h : History) (e : E)
      → contains (trim_space url) ".img" ≡ true
      → env.request_error (trim_space url) ≡ some e
      → detect_image_format env url p h ≡ (done raw_image_format, h)
  unfolding detect_image_format probe
  no_request url p h e y f = rw (y, f)

  probed :
      (url p : String) (h : History)
      → contains (trim_space url) ".img" ≡ true
      → env.request_error (trim_space url) ≡ none
      → let get = http_get (trim_space url) (proxy_of env p) in
        detect_image_format env url p h
        ≡ (done (format_of_response env (env.fetched h get)), get ∷ h)
  unfolding detect_image_format probe
  probed url p h y f = rw (y, f)

  -- An image is taken for qcow2 exactly if its trimmed URL holds ".img", a request of it can be made,
  -- and the request, sent with the chosen proxy, is answered with the status 200 or 206 and a body
  -- that begins with the magic number of qcow2. Any failure makes it raw.
  pub detect_image_format_iff :
      (image_url http_proxy : String) (h : History)
      → ((detect_image_format env image_url http_proxy h).0 ≡ done qcow2_image_format) ↔ (
          (contains (trim_space image_url) ".img" ≡ true)
          × (env.request_error (trim_space image_url) ≡ none)
          × HasMagic (env.fetched h (http_get (trim_space image_url) (proxy_of env http_proxy))))
  detect_image_format_iff url p h = elim (Bool-cases (contains (trim_space url) ".img")) [
    | inr n ↦ (
      λ q. absurd (raw_is_not_qcow2 (done-injective (sym (ap (λ o. o.0) (no_img url p h n)) ∙ q))),
      λ m. absurd (true_is_not_false (sym (m.0) ∙ n)),
    )
    | inl y ↦ elim (Option-cases (env.request_error (trim_space url))) [
      | inr (e, f) ↦ (
        λ q. absurd (
            raw_is_not_qcow2 (done-injective (sym (ap (λ o. o.0) (no_request url p h e y f)) ∙ q))),
        λ m. absurd (none_is_not_some e (sym (m.1) ∙ f)),
      )
      | inl f ↦
          let r = env.fetched h (http_get (trim_space url) (proxy_of env p)) in
          (
            λ q. (
              y,
              f,
              (response_iff r).0 (done-injective (sym (ap (λ o. o.0) (probed url p h y f)) ∙ q)),
            ),
            λ m. ap (λ o. o.0) (probed url p h y f) ∙ ap done ((response_iff r).1 (m.2)),
          )
    ]
  ]
