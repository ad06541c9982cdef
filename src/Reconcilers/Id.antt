-- ===== src/Reconcilers/Id.antt =====
-- The IDs that feed the reconcilers: a tenant ID and a resource ID joined by an underscore.
use Prim.Native.Char.{Char, code}
use Prim.Native.String
use text.Mathlib.TextLemmas.{nil-append, cons-append}
use infra_onboarding.Prelude.{◌≡◌, refl, ap, ◌∙◌, String, false, some, [], ◌∷◌, nat_eq}
use infra_onboarding.Reconcilers.{
  split_underscore, cons_head, new_reconciler_id, get_tenant_id, get_resource_id,
}

-- No character of the text is an underscore.
pub data HasNoUnderscore : String → Type 0 where
  none_left : HasNoUnderscore ""
  other_first :
      {c : Char} {s : String}
      → nat_eq (code c) b'_' ≡ false
      → HasNoUnderscore s
      → HasNoUnderscore (String.◌∷◌ c s)

-- The separator, before any text.
underscore_append : (r : String) → String.◌++◌ "_" r ≡ String.◌∷◌ "_" r
underscore_append r = cons-append "_" "" r ∙ ap (String.◌∷◌ "_") (nil-append r)

split-underscore_cons : (r : String) → split_underscore (String.◌∷◌ "_" r) ≡ "" ∷ split_underscore r
unfolding split_underscore
split-underscore_cons r = refl

split-other_cons :
    (c : Char) (s : String)
    → nat_eq (code c) b'_' ≡ false
    → split_underscore (String.◌∷◌ c s) ≡ cons_head c (split_underscore s)
unfolding split_underscore
split-other_cons c s e = rw e

-- A text with no underscore is split into itself.
split-HasNoUnderscore : {s : String} → HasNoUnderscore s → split_underscore s ≡ s ∷ []
unfolding split_underscore
split-HasNoUnderscore none_left = refl
split-HasNoUnderscore (other_first {c = c} {s = s} e h) =
    split-other_cons c s e ∙ ap (cons_head c) (split-HasNoUnderscore h)

-- The first underscore ends the first part.
split-append :
    {t : String} (r : String)
    → HasNoUnderscore t
    → split_underscore (String.◌++◌ t (String.◌++◌ "_" r)) ≡ t ∷ split_underscore r
split-append r none_left =
    ap split_underscore (nil-append _ ∙ underscore_append r) ∙ split-underscore_cons r
split-append r (other_first {c = c} {s = s} e h) =
    ap split_underscore (cons-append c s _)
    ∙ split-other_cons c _ e
    ∙ ap (cons_head c) (split-append r h)

-- An ID gives back the tenant ID and the resource ID that it was made of, where neither holds an
-- underscore.
pub get-new_reconciler_id :
    {t r : String}
    → HasNoUnderscore t
    → HasNoUnderscore r
    → (get_tenant_id (new_reconciler_id t r) ≡ some t)
      × (get_resource_id (new_reconciler_id t r) ≡ some r)
unfolding get_tenant_id get_resource_id new_reconciler_id
get-new_reconciler_id {r = r} ht hr = rw (split-append r ht) (refl, rw (split-HasNoUnderscore hr))
