-- ===== src/Dkam/Firewall.antt =====
-- dkam/pkg/curation/curation.go: the commands of ufw and of iptables for a firewall rule.
use infra_onboarding.Prelude.{
  String, Bool, not, List, [], ◌∷◌, ◌++◌, map, format, split_on, head_or_empty, trim_space, ◌==◌,
  string_has_eq, if◌then◌else◌,
}
use infra_onboarding.Dkam.{FirewallRule}

-- `is_ip` tells whether net.ParseIP reads the text.
module _ (is_ip : String → Bool) where
  unfoldable pub resolve_ip : String → String
  resolve_ip source =
      if is_ip source then source else format ("$(dig +short " ∷ source ∷ " | tail -n1)" ∷ [])

  abbrev pub ufw_from : String → FirewallRule → List String
  ufw_from ip rule =
      if not (rule.protocol == "")
      then if not (rule.ports == "")
        then format
            ("ufw allow from " ∷ ip ∷ " to any port " ∷ rule.ports ∷ " proto " ∷ rule.protocol ∷ [])
          ∷ []
        else format ("ufw allow from " ∷ ip ∷ " proto " ∷ rule.protocol ∷ []) ∷ []
      else if not (rule.ports == "")
      then format ("ufw allow from " ∷ ip ∷ " to any port " ∷ rule.ports ∷ []) ∷ []
      else format ("ufw allow from " ∷ ip ∷ []) ∷ []

  abbrev pub ufw_anywhere : FirewallRule → List String
  ufw_anywhere rule =
      if not (rule.protocol == "")
      then if not (rule.ports == "")
        then format ("ufw allow in to any port " ∷ rule.ports ∷ " proto " ∷ rule.protocol ∷ []) ∷ []
        else []
      else if not (rule.ports == "")
      then format ("ufw allow in to any port " ∷ rule.ports ∷ []) ∷ []
      else []

  unfoldable pub generate_ufw_commands : FirewallRule → List String
  unfolding resolve_ip
  generate_ufw_commands rule =
      if not (rule.source_ip == "")
      then ufw_from (resolve_ip rule.source_ip) rule
      else ufw_anywhere rule

  abbrev pub generate_iptables_for_protocol : String → String → String → String
  generate_iptables_for_protocol protocol ip port =
      if not (ip == "")
      then format (
          "iptables -A INPUT -p " ∷ protocol ∷ " -s " ∷ ip ∷ " --dport " ∷ port ∷ " -j ACCEPT" ∷ [])
      else format ("iptables -A INPUT -p " ∷ protocol ∷ " --dport " ∷ port ∷ " -j ACCEPT" ∷ [])

  -- the body of the loop, for a port without its spaces
  abbrev pub commands_for_port : String → String → List String
  commands_for_port ip port =
      if not (ip == "")
      then format ("iptables -A INPUT -p tcp -s " ∷ ip ∷ " --dport " ∷ port ∷ " -j ACCEPT" ∷ [])
        ∷ format ("iptables -A INPUT -p udp -s " ∷ ip ∷ " --dport " ∷ port ∷ " -j ACCEPT" ∷ [])
        ∷ []
      else format ("iptables -A INPUT -p tcp --dport " ∷ port ∷ " -j ACCEPT" ∷ [])
        ∷ format ("iptables -A INPUT -p udp --dport " ∷ port ∷ " -j ACCEPT" ∷ [])
        ∷ []

  unfoldable pub generate_iptables_for_ports : List String → String → List String
  unfolding trim_space
  generate_iptables_for_ports [] ip = []
  generate_iptables_for_ports (port ∷ ports) ip =
      commands_for_port ip (trim_space port) ++ generate_iptables_for_ports ports ip

  abbrev pub protocol_command : String → String → String
  protocol_command protocol ip =
      if not (ip == "")
      then format ("iptables -A INPUT -p " ∷ protocol ∷ " -s " ∷ ip ∷ " -j ACCEPT" ∷ [])
      else format ("iptables -A INPUT -p " ∷ protocol ∷ " -j ACCEPT" ∷ [])

  -- for a rule with a protocol, by whether the first of the ports is there
  abbrev pub iptables_of_protocol : String → String → List String → List String
  iptables_of_protocol protocol ip ports =
      if not (head_or_empty ports == "")
      then map (λ port. generate_iptables_for_protocol protocol ip (trim_space port)) ports
      else protocol_command protocol ip ∷ []

  abbrev pub iptables_of_ports : String → List String → List String
  iptables_of_ports ip ports =
      if not (head_or_empty ports == "")
      then generate_iptables_for_ports ports ip
      else if not (ip == "")
      then format (
          "iptables -A INPUT -p tcp -s " ∷ ip ∷ " -j ACCEPT && iptables -A INPUT -p udp -s " ∷ ip
          ∷ " -j ACCEPT" ∷ [])
        ∷ []
      else []

  abbrev pub source_address : FirewallRule → String
  source_address rule = if not (rule.source_ip == "") then resolve_ip rule.source_ip else ""

  unfoldable pub generate_iptables_commands : FirewallRule → List String
  unfolding resolve_ip generate_iptables_for_ports split_on trim_space
  generate_iptables_commands rule =
      if not (rule.protocol == "")
      then iptables_of_protocol rule.protocol (source_address rule) (split_on 44 rule.ports)
      else iptables_of_ports (source_address rule) (split_on 44 rule.ports)
