-- ===== src/CloudInit/Complete.antt =====
-- What the options of a generated cloud-init are (config.go, generate.go).
use infra_onboarding.Prelude.{
  ◌≡◌, ◌≢◌, refl, String, Bool, true, false, ◌&&◌, ◌||◌, Option, none, some, List, ◌==◌, distinct,
  both_false, both_set, string_has_eq, if◌then◌else◌,
}
use infra_onboarding.Api.Enums.{OsType, os_type_eq}
use infra_onboarding.Api.Errors.{ok}
use infra_onboarding.Api.Calls.{History}
use infra_onboarding.Api.Env.{Env}
use infra_onboarding.Act.{done}
use infra_onboarding.Dkam.{InfraConfig}
use infra_onboarding.CloudInit.{
  CloudInitOption, CloudInitOptions, apply_options, default_cloud_init_options, refuse_if, is_empty,
  validate_non_standalone_options, validate_options, generate_valid, generate_from_infra_config,
}

-- Options with which an edge node can be brought up.
pub record IsComplete (o : CloudInitOptions) : Type 0 where
  pub known_os : o.os_type ≢ OsType.unspecified
  pub has_hostname : o.hostname ≢ ""
  pub has_mac : o.host_mac ≢ ""
  pub has_tenant : o.run_as_standalone ≡ false → o.tenant_id ≢ ""
  pub has_client : o.run_as_standalone ≡ false → (o.client_id ≢ "") × (o.client_secret ≢ "")
  pub has_dev_user : o.use_dev_mode ≡ true → (o.dev_username ≢ "") × (o.dev_user_passwd ≢ "")
  pub has_account : o.use_local_account ≡ true → (o.local_account_user_name ≢ "") × (o.ssh_key ≢ "")
  pub has_address : o.preserve_ip ≡ true → (o.static_host_ip ≢ "") × (is_empty o.static_dns ≡ false)

guarded : (c x : Bool) → (c && x) ≡ false → c ≡ true → x ≡ false
guarded true x n t = n
guarded false x n t = absurd (cc)

module _ {E : Type 0} (env : Env E) where
  accepted :
      (b : Bool) (message : String) (rest : Option E)
      → refuse_if env b message rest ≡ none
      → (b ≡ false) × (rest ≡ none)
  accepted true message rest q = absurd (cc)
  accepted false message rest q = (refl, q)

  when_managed :
      (b : Bool) (rest : Option E) → (if b then none else rest) ≡ none → b ≡ false → rest ≡ none
  when_managed true rest q n = absurd (cc)
  when_managed false rest q n = q

  managed :
      (o : CloudInitOptions)
      → validate_non_standalone_options env o ≡ none
      → (o.tenant_id ≢ "") × ((o.client_id ≢ "") × (o.client_secret ≢ ""))
  unfolding validate_non_standalone_options
  managed o q =
      let (tenant, q1) = accepted (o.tenant_id == "") _ _ q in
      let (client, q2) = accepted (o.client_id == "" || o.client_secret == "") _ _ q1 in
      (distinct o.tenant_id "" tenant, both_set o.client_id o.client_secret client)

  pub validate-IsComplete : (o : CloudInitOptions) → validate_options env o ≡ none → IsComplete o
  unfolding validate_options
  validate-IsComplete o q =
      let (os, q1) = accepted (o.os_type == OsType.unspecified) _ _ q in
      let (hostname, q2) = accepted (o.hostname == "") _ _ q1 in
      let (mac, q3) = accepted (o.host_mac == "") _ _ q2 in
      let (dev, q4) =
        accepted (o.use_dev_mode && (o.dev_username == "" || o.dev_user_passwd == "")) _ _ q3 in
      let (account, q5) =
        accepted (o.use_local_account && (o.local_account_user_name == "" || o.ssh_key == "")) _ _
          q4 in
      let (ip, q6) =
        accepted (o.preserve_ip && (o.static_host_ip == "" || is_empty o.static_dns)) _ _ q5 in
      record {
        known_os = distinct o.os_type OsType.unspecified os;
        has_hostname = distinct o.hostname "" hostname;
        has_mac = distinct o.host_mac "" mac;
        has_tenant = λ n. (managed o (when_managed o.run_as_standalone _ q6 n)).0;
        has_client = λ n. (managed o (when_managed o.run_as_standalone _ q6 n)).1;
        has_dev_user =
            λ t. both_set o.dev_username o.dev_user_passwd (guarded o.use_dev_mode _ dev t);
        has_account = λ t.
            both_set o.local_account_user_name o.ssh_key (guarded o.use_local_account _ account t);
        has_address = λ t.
            let (a, b) =
              both_false (o.static_host_ip == "") (is_empty o.static_dns)
                (guarded o.preserve_ip _ ip t) in
            (distinct o.static_host_ip "" a, b);
      }

  generate_valid-none :
      (template : String) (c : InfraConfig) (o : CloudInitOptions) (e : Option E) (h g : History)
      (s : String)
      → generate_valid env template c o e h ≡ (done (ok s), g)
      → e ≡ none
  unfolding generate_valid
  generate_valid-none template c o (some e) h g s q = absurd (cc)
  generate_valid-none template c o none h g s q = refl

  pub generated-IsComplete :
      (template : String) (c : InfraConfig) (opts : List CloudInitOption) (h g : History)
      (s : String)
      → generate_from_infra_config env template c opts h ≡ (done (ok s), g)
      → IsComplete (apply_options opts default_cloud_init_options)
  unfolding generate_from_infra_config
  generated-IsComplete template c opts h g s q =
      let o = apply_options opts default_cloud_init_options in
      validate-IsComplete o (generate_valid-none template c o (validate_options env o) h g s q)
