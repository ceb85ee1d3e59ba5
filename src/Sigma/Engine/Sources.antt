-- ===== src/Sigma/Engine/Sources.antt =====
-- The tables of aegis-brain/app/rules/sigma/engine.py: which events a `logsource` is about.
use aegis_ecosystem.Prelude.{Text, codes, List, [], ◌∷◌, eq_text}
use aegis_ecosystem.Prelude.Dict.{Dict}

abbrev pub product_sources : Dict Text (List Text)
product_sources =
    (codes "windows", codes "windows_event" ∷ [])
    ∷ (codes "linux", codes "syslog" ∷ [])
    ∷ (codes "zeek", codes "zeek" ∷ [])
    ∷ (codes "suricata", codes "suricata" ∷ [])
    ∷ (codes "webserver", codes "web" ∷ codes "nginx" ∷ codes "apache" ∷ codes "squid" ∷ [])
    ∷ (codes "proxy", codes "web" ∷ codes "squid" ∷ codes "nginx" ∷ [])
    ∷ (
      codes "firewall",
      codes "firewall" ∷ codes "pfsense" ∷ codes "pfirewall" ∷ codes "iptables" ∷ [],
    )
    ∷ (
      codes "aegis",
      codes "json"
          ∷ codes "syslog"
          ∷ codes "windows_event"
          ∷ codes "zeek"
          ∷ codes "suricata"
          ∷ codes "web"
          ∷ codes "firewall"
          ∷ codes "pfsense"
          ∷ codes "pfirewall"
          ∷ codes "iptables"
          ∷ codes "nginx"
          ∷ codes "squid"
          ∷ [],
    )
    ∷ []

abbrev pub windows_service_hints : Dict Text Text
windows_service_hints =
    (codes "security", codes "security")
    ∷ (codes "system", codes "system")
    ∷ (codes "application", codes "application")
    ∷ (codes "sysmon", codes "sysmon")
    ∷ (codes "powershell", codes "powershell")
    ∷ (codes "powershell-classic", codes "windowspowershell")
    ∷ (codes "taskscheduler", codes "taskscheduler")
    ∷ (codes "windefend", codes "windefend")
    ∷ (codes "dns-server", codes "dns-server")
    ∷ (codes "windows firewall", codes "firewall")
    ∷ (codes "terminalservices", codes "terminalservices")
    ∷ (codes "bits-client", codes "bits-client")
    ∷ []

abbrev pub windows_category_types : Dict Text (List Text)
windows_category_types =
    (codes "process_creation", codes "process_creation" ∷ [])
    ∷ (codes "process_termination", codes "process_termination" ∷ [])
    ∷ (codes "network_connection", codes "network_connect" ∷ [])
    ∷ (codes "file_creation", codes "file_created" ∷ [])
    ∷ (codes "file_event", codes "file_created" ∷ codes "file_transfer" ∷ [])
    ∷ (codes "registry_set", codes "registry_set" ∷ [])
    ∷ (codes "registry_event", codes "registry_set" ∷ codes "registry_delete" ∷ [])
    ∷ (codes "service_installation", codes "service_installed" ∷ [])
    ∷ (codes "driver_load", codes "service_installed" ∷ [])
    ∷ (codes "scheduled_task", codes "scheduled_task_created" ∷ codes "scheduled_task_updated" ∷ [])
    ∷ (codes "logon", codes "auth_success" ∷ codes "auth_failure" ∷ [])
    ∷ (codes "log_cleared", codes "log_cleared" ∷ [])
    ∷ (codes "ps_script", codes "powershell_script_block" ∷ codes "powershell_module" ∷ [])
    ∷ (codes "dns_query", codes "dns_query" ∷ [])
    ∷ []

abbrev pub network_service_hints : Dict Text (List Text)
network_service_hints =
    (codes "dns", codes "dns_query" ∷ codes "dns" ∷ [])
    ∷ (codes "http", codes "http_request" ∷ codes "http" ∷ [])
    ∷ (codes "ssl", codes "tls_handshake" ∷ codes "ssl" ∷ [])
    ∷ (codes "conn", codes "network_connect" ∷ codes "network_denied" ∷ codes "conn" ∷ [])
    ∷ (codes "ssh", codes "auth" ∷ codes "ssh" ∷ [])
    ∷ (codes "alert", codes "alert" ∷ codes "ids_notice" ∷ [])
    ∷ (codes "notice", codes "ids_notice" ∷ [])
    ∷ []
