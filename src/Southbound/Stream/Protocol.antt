-- ===== src/Southbound/Stream/Protocol.antt =====
-- The protocol of the onboarding stream, as a specification of its own, and that the handler keeps to
-- it (grpc_server.go).
use infra_onboarding.Prelude.{◌≡◌, ◌≢◌, refl, String, Bool, true, false, ◌∷◌, if◌then◌else◌}
use infra_onboarding.Api.Resources.{HostResource}
use infra_onboarding.Api.Errors.{Code, not_found}
use infra_onboarding.Api.Calls.{Call, History, stream_recv, stream_send}
use infra_onboarding.Act.{Outcome, done, panic, Act, pure, continue, ◌>>=◌}
use infra_onboarding.Act.Makes.{Extends, same, more, Makes}
use infra_onboarding.Southbound.Stream.{error_response, registered_response, onboarded_response}

-- The stream is ready for a request, it owes an answer to one, or it has been answered for good.
pub data Phase : Type 0 where
  ready busy over : Phase

-- The calls that the protocol does not see.
abbrev pub is_silent : Call → Bool
is_silent stream_recv = false
is_silent (stream_send r) = false
is_silent _ = true

-- A request is received. It is answered by `NotFound` or as registered, and the stream stays open; or
-- as onboarded, or by another error, and then nothing more is received or sent.
pub data Turn : Phase → Call → Phase → Type 0 where
  receive : Turn ready stream_recv busy
  unknown : (message : String) → Turn busy (stream_send (error_response not_found message)) ready
  register : (host : HostResource) → Turn busy (stream_send (registered_response host)) ready
  admit :
      (host : HostResource) (c : String × String)
      → Turn busy (stream_send (onboarded_response host c)) over
  refuse :
      (code : Code) (message : String)
      → code ≢ not_found
      → Turn busy (stream_send (error_response code message)) over
  silent : {p : Phase} {c : Call} → is_silent c ≡ true → Turn p c p

-- The calls after the first history take the protocol from the one phase to the other.
pub data Plays (p : Phase) (h : History) : Phase → History → Type 0 where
  start : Plays p h p h
  turn : {q r : Phase} {g : History} {c : Call} → Plays p h q g → Turn q c r → Plays p h r (c ∷ g)

Plays-trans :
    {p q : Phase} {h g : History} {r : Phase} {k : History}
    → Plays p h q g
    → Plays q g r k
    → Plays p h r k
Plays-trans a start = a
Plays-trans a (turn b t) = turn (Plays-trans a b) t

Extends-Plays : (p : Phase) {h g : History} → Extends (λ c. is_silent c ≡ true) h g → Plays p h p g
Extends-Plays p same = start
Extends-Plays p (more s e) = turn (Extends-Plays p e) (silent s)

abbrev pub Left {ℓ κ} : {A : Type ℓ} → (A → Phase → Type κ) → Outcome A → Phase → Type κ
Left to (done a) q = to a q
Left to panic q = Unit

-- From phase `p`, the action keeps to the protocol, and leaves it in a phase that its result allows.
pub record Keeps {ℓ} {A : Type ℓ} (p : Phase) (m : Act A) (to : A → Phase → Type 0) : Type 0 where
  pub at : (h : History) → (q : Phase) × Plays p h q (m h).1 × Left to (m h).0 q

module _ {ℓ} {A : Type ℓ} where
  pub Keeps-pure : (p : Phase) (a : A) (to : A → Phase → Type 0) → to a p → Keeps p (pure a) to
  Keeps-pure p a to x = record { at = λ h. (p, start, x) }

  pub Keeps-if :
      (p : Phase) (b : Bool) (m n : Act A) (to : A → Phase → Type 0)
      → Keeps p m to
      → Keeps p n to
      → Keeps p (if b then m else n) to
  Keeps-if p true m n to k l = k
  Keeps-if p false m n to k l = l

  silent-Left : (p : Phase) (o : Outcome A) → Left (λ a q. q ≡ p) o p
  silent-Left p (done a) = refl
  silent-Left p panic = tt

  pub Keeps-silent :
      (p : Phase) (m : Act A) → Makes (λ c. is_silent c ≡ true) m → Keeps p m λ a q. q ≡ p
  Keeps-silent p m s = record { at = λ h. (p, Extends-Plays p (s.at h), silent-Left p (m h).0) }

  weaken-Left :
      (to last : A → Phase → Type 0) (o : Outcome A) (q : Phase)
      → ((a : A) (r : Phase) → to a r → last a r)
      → Left to o q
      → Left last o q
  weaken-Left to last (done a) q f l = f a q l
  weaken-Left to last panic q f l = tt

  pub Keeps-weaken :
      (p : Phase) (m : Act A) (to last : A → Phase → Type 0)
      → ((a : A) (q : Phase) → to a q → last a q)
      → Keeps p m to
      → Keeps p m last
  Keeps-weaken p m to last f k = record {
    at = λ h. let (q, plays, left) = k.at h in (q, plays, weaken-Left to last (m h).0 q f left);
  }

module _ {ℓ κ} {A : Type ℓ} {B : Type κ} where
  continue_keeps :
      (p : Phase) (f : A → Act B) (to : A → Phase → Type 0) (last : B → Phase → Type 0)
      (h : History) (o : Outcome A) (g : History) (q : Phase)
      → Plays p h q g
      → Left to o q
      → ((a : A) (r : Phase) → to a r → Keeps r (f a) last)
      → (r : Phase) × Plays p h r (continue f (o, g)).1 × Left last (continue f (o, g)).0 r
  continue_keeps p f to last h (done a) g q a_plays l k =
      let (r, plays, left) = (k a q l).at g in (r, Plays-trans a_plays plays, left)
  continue_keeps p f to last h panic g q a_plays l k = (q, a_plays, tt)

  pub Keeps-bind :
      (p : Phase) (m : Act A) (f : A → Act B) (to : A → Phase → Type 0) (last : B → Phase → Type 0)
      → Keeps p m to
      → ((a : A) (r : Phase) → to a r → Keeps r (f a) last)
      → Keeps p (m >>= f) last
  Keeps-bind p m f to last a k = record {
    at = λ h.
        let (q, plays, left) = a.at h in
        continue_keeps p f to last h (m h).0 (m h).1 q plays left k;
  }
