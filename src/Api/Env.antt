-- ===== src/Api/Env.antt =====
-- The program's surroundings: how every call is answered, what the libraries compute, and the
-- process' environment. An answer may depend on all calls made before, so that a theorem over all
-- surroundings covers every failure and every interleaving with other clients.
use infra_onboarding.Prelude.{ℕ, String, Bool, Option, List}
use infra_onboarding.Onboardingmgr.{ValidationError, CreateNodesResponse}
use infra_onboarding.Api.Enums.{ResourceKind, HostState, OsType}
use infra_onboarding.Api.Resources.{SubResource, Resource, Event, ProviderConfig}
use infra_onboarding.Api.Tink.{Workflow}
use infra_onboarding.Api.Errors.{Errors, Result}
use infra_onboarding.Api.Calls.{Field, Call, History}
use infra_onboarding.Dkam.{InfraConfig, FirewallRule, Value}

pub record Env (E : Type 0) : Type 0 where
  pub errors : Errors E
  pub open errors use *
  -- calls that answer with an error or nothing
  pub outcome : History → Call → Option E
  -- the message of an inventory response, if one is set
  pub got : History → Call → Result E (Option Resource)
  -- a list response, which may be a nil pointer, beside its error
  pub listed : History → Call → Option (List (Option Resource)) × Option E
  -- the tenant and resource IDs of all resources of a kind
  pub found : History → Call → Result E (List (String × String))
  pub workflow : History → Call → Result E Workflow
  pub credentials : History → Call → Result E (String × String)
  -- time.Now().Unix()
  pub now : History → ℕ
  -- validator.ValidateMessage; fieldmaskpb.New; util.ValidateMaskAndFilterMessage, which leaves the
  -- masked fields alone
  pub validate : Option Resource → Option E
  pub mask_error : Resource → List Field → Option E
  pub filter_message : Resource → List Field → Result E Resource
  pub validate_event : Event → Option E
  -- util.GetResourceFromKind, GetResourceKindFromResourceID, and GetResourceKeyFromResource, which
  -- gives the tenant ID and the resource ID
  pub resource_from_kind : ResourceKind → Option E
  pub kind_of_resource_id : String → Result E ResourceKind
  pub key_of_resource : Option Resource → Result E (String × String)
  -- util.GetSpecificResourceList at IP addresses
  pub ip_addresses : List Resource → Result E (List SubResource)
  -- json.Unmarshal into a map from text to text; url.ParseRequestURI
  pub unmarshal : String → Result E (List (String × String))
  pub is_request_uri : String → Bool
  -- the status of a response over HTTP, and the bytes that its body gives before its end or an error
  pub fetched : History → Call → Result E (ℕ × List ℕ)
  -- url.Parse; http.NewRequestWithContext; os.Getenv
  pub url_error : String → Option E
  pub request_error : String → Option E
  pub getenv : String → String
  -- CheckListOutputIsSingular; json.Unmarshal of the configuration of a provider; Parse of google/uuid
  pub check_singular : List Resource → Option E
  pub unmarshal_provider : String → Result E ProviderConfig
  pub parse_uuid : String → Option E
  -- the resource that the inventory answers a creation with
  pub inserted : History → Call → Result E Resource
  -- errors.Is(err, io.EOF), and io.EOF
  pub is_eof : E → Bool
  pub eof : E
  -- a validation error as an error; the generated text of a host's state
  pub invalid : ValidationError → E
  pub host_state_text : HostState → String
  -- the text of a field of a host; SECURITY_FEATURE_NONE
  pub field_text : Field → String
  pub security_feature_none : ℕ
  -- config.GetInfraConfig()
  pub infra_config : History → InfraConfig
  -- the content of a file, and os.IsNotExist
  pub file : History → Call → Result E String
  pub is_not_exist : E → Bool
  -- the data of the artifacts, if there is a list of them
  pub artifacts : History → Call → Result E (Option (List String))
  -- net.ParseIP; json.Unmarshal of firewall rules, and of a PlatformBundleManifest (the artifacts of
  -- the cloud-init script and of the installer)
  pub is_ip : String → Bool
  pub unmarshal_rules : String → Result E (List FirewallRule)
  pub unmarshal_bundle : String → Result E (String × String)
  -- text/template with sprig: parsing, and execution on the variables
  pub parses_template : String → Bool
  pub execute_template : String → List (String × Value) → Option String
  -- strconv.Quote; ConcatMapValuesSorted; `%v` of an OsType and of a SecurityFeature
  pub quote : String → String
  pub concat_map_values_sorted : List (String × String) → String → String
  pub os_type_text : OsType → String
  pub security_feature_text : ℕ → String
  -- the embedded files 99_infra.cfg and Installer
  pub cloud_init_template : String
  pub default_installer : String
  -- for an edge node: CertPool.AppendCertsFromPEM, os.LookupEnv, the answer of CreateNodes, and those of
  -- the token services, which have a status: the access token in the body, if it is read and has one,
  -- and the text of the body
  pub appends_certs : String → Bool
  pub lookup_env : History → String → Option String
  pub created : History → Call → Result E CreateNodesResponse
  pub token : History → Call → Result E (ℕ × Result E (Option String))
  pub body : History → Call → Result E (ℕ × Result E String)
  -- the variables of internal/env
  pub k8s_namespace : String
  pub tinker_action_version : String
  pub tinker_artifact_name : String
  pub en_dkam_mode : String
  pub en_user_name : String
  pub en_pass_word : String
