-- ===== src/Sigma/Fields/Aliases.antt =====
-- The tables of aegis-brain/app/rules/sigma/fields.py: the fields of the unified event, of
-- aegis-brain/app/ingest/base.py, and the names that Sigma rules use for them.
use aegis_ecosystem.Prelude.{Text, codes, List, [], ◌∷◌, eq_text}
use aegis_ecosystem.Prelude.Dict.{Dict}

-- `_DIRECT`: the names are in lower case.
abbrev pub direct_fields : List Text
direct_fields =
    codes "time"
    ∷ codes "source"
    ∷ codes "source_type"
    ∷ codes "event_id"
    ∷ codes "ocsf_class_uid"
    ∷ codes "severity"
    ∷ codes "severity_id"
    ∷ codes "hostname"
    ∷ codes "ip"
    ∷ codes "user"
    ∷ codes "user_domain"
    ∷ codes "process_name"
    ∷ codes "pid"
    ∷ codes "parent_process_name"
    ∷ codes "parent_pid"
    ∷ codes "process_path"
    ∷ codes "command_line"
    ∷ codes "file_path"
    ∷ codes "file_name"
    ∷ codes "file_hash"
    ∷ codes "src_ip"
    ∷ codes "src_port"
    ∷ codes "dst_ip"
    ∷ codes "dst_port"
    ∷ codes "protocol"
    ∷ codes "url"
    ∷ codes "http_method"
    ∷ codes "http_status"
    ∷ codes "user_agent"
    ∷ codes "domain"
    ∷ codes "dns_query"
    ∷ codes "signature_id"
    ∷ codes "signature"
    ∷ codes "category"
    ∷ codes "message"
    ∷ codes "message_id"
    ∷ codes "raw"
    ∷ codes "extra"
    ∷ []

abbrev pub aliases : Dict Text (List Text)
aliases =
    (codes "eventid", codes "message_id" ∷ codes "extra.event_id" ∷ [])
    ∷ (codes "eventcode", codes "message_id" ∷ codes "extra.event_id" ∷ [])
    ∷ (codes "provider_name", codes "signature" ∷ codes "extra.provider" ∷ [])
    ∷ (codes "channel", codes "extra.channel" ∷ [])
    ∷ (codes "computer", codes "hostname" ∷ [])
    ∷ (codes "image", codes "process_path" ∷ codes "process_name" ∷ [])
    ∷ (codes "originalfilename", codes "file_name" ∷ [])
    ∷ (codes "newname", codes "file_name" ∷ [])
    ∷ (codes "commandline", codes "command_line" ∷ [])
    ∷ (codes "parentcommandline", codes "extra.win.ParentCommandLine" ∷ [])
    ∷ (codes "parentimage", codes "parent_process_name" ∷ [])
    ∷ (codes "parentprocessname", codes "parent_process_name" ∷ [])
    ∷ (codes "processname", codes "process_name" ∷ [])
    ∷ (codes "newprocessname", codes "process_path" ∷ codes "process_name" ∷ [])
    ∷ (codes "processid", codes "pid" ∷ [])
    ∷ (codes "newprocessid", codes "pid" ∷ [])
    ∷ (codes "parentprocessid", codes "parent_pid" ∷ [])
    ∷ (codes "targetusername", codes "user" ∷ [])
    ∷ (codes "subjectusername", codes "user" ∷ [])
    ∷ (codes "user", codes "user" ∷ [])
    ∷ (codes "username", codes "user" ∷ [])
    ∷ (codes "targetdomainname", codes "user_domain" ∷ [])
    ∷ (codes "subjectdomainname", codes "user_domain" ∷ [])
    ∷ (codes "logontype", codes "extra.logon_type" ∷ codes "extra.win.LogonType" ∷ [])
    ∷ (codes "ipaddress", codes "src_ip" ∷ codes "ip" ∷ [])
    ∷ (codes "sourceip", codes "src_ip" ∷ codes "ip" ∷ [])
    ∷ (codes "workstationname", codes "hostname" ∷ [])
    ∷ (codes "targetfilename", codes "file_path" ∷ [])
    ∷ (codes "filename", codes "file_name" ∷ codes "file_path" ∷ [])
    ∷ (
      codes "imagepath",
      codes "file_path" ∷ codes "process_path" ∷ codes "extra.win.ImagePath" ∷ [],
    )
    ∷ (codes "servicename", codes "extra.win.ServiceName" ∷ [])
    ∷ (codes "servicetype", codes "extra.win.ServiceType" ∷ [])
    ∷ (codes "starttype", codes "extra.win.StartType" ∷ [])
    ∷ (codes "taskname", codes "extra.win.TaskName" ∷ [])
    ∷ (codes "hashes", codes "file_hash" ∷ [])
    ∷ (codes "sha256", codes "file_hash" ∷ [])
    ∷ (codes "scriptblocktext", codes "command_line" ∷ [])
    ∷ (codes "payload", codes "command_line" ∷ [])
    ∷ (codes "processcommandline", codes "command_line" ∷ [])
    ∷ (codes "program", codes "extra.syslog_tag" ∷ codes "process_name" ∷ [])
    ∷ (codes "syslog_tag", codes "extra.syslog_tag" ∷ [])
    ∷ (codes "src_ip", codes "src_ip" ∷ codes "ip" ∷ [])
    ∷ (codes "source_ip", codes "src_ip" ∷ [])
    ∷ (codes "srcip", codes "src_ip" ∷ [])
    ∷ (codes "id.orig_h", codes "src_ip" ∷ [])
    ∷ (codes "dst_ip", codes "dst_ip" ∷ [])
    ∷ (codes "dest_ip", codes "dst_ip" ∷ [])
    ∷ (codes "destinationip", codes "dst_ip" ∷ [])
    ∷ (codes "id.resp_h", codes "dst_ip" ∷ [])
    ∷ (codes "src_port", codes "src_port" ∷ [])
    ∷ (codes "srcport", codes "src_port" ∷ [])
    ∷ (codes "id.orig_p", codes "src_port" ∷ [])
    ∷ (codes "dst_port", codes "dst_port" ∷ [])
    ∷ (codes "dest_port", codes "dst_port" ∷ [])
    ∷ (codes "destinationport", codes "dst_port" ∷ [])
    ∷ (codes "id.resp_p", codes "dst_port" ∷ [])
    ∷ (codes "proto", codes "protocol" ∷ [])
    ∷ (codes "protocol", codes "protocol" ∷ [])
    ∷ (codes "app_proto", codes "extra.app_proto" ∷ [])
    ∷ (codes "conn_state", codes "extra.conn_state" ∷ [])
    ∷ (codes "service", codes "extra.service" ∷ [])
    ∷ (codes "query", codes "dns_query" ∷ [])
    ∷ (codes "queryname", codes "dns_query" ∷ [])
    ∷ (codes "dns.query", codes "dns_query" ∷ [])
    ∷ (codes "url", codes "url" ∷ [])
    ∷ (codes "uri", codes "url" ∷ [])
    ∷ (codes "http.url", codes "url" ∷ [])
    ∷ (codes "method", codes "http_method" ∷ [])
    ∷ (codes "http_method", codes "http_method" ∷ [])
    ∷ (codes "status_code", codes "http_status" ∷ [])
    ∷ (codes "useragent", codes "user_agent" ∷ [])
    ∷ (codes "user_agent", codes "user_agent" ∷ [])
    ∷ (codes "http.user_agent", codes "user_agent" ∷ [])
    ∷ (codes "host", codes "domain" ∷ codes "hostname" ∷ [])
    ∷ (codes "hostname", codes "domain" ∷ codes "hostname" ∷ [])
    ∷ (codes "domain", codes "domain" ∷ [])
    ∷ (codes "fqdn", codes "domain" ∷ [])
    ∷ (codes "sni", codes "extra.sni" ∷ [])
    ∷ (codes "ja3", codes "extra.ja3" ∷ [])
    ∷ (codes "alert.signature", codes "signature" ∷ [])
    ∷ (codes "alert.signature_id", codes "signature_id" ∷ [])
    ∷ (codes "alert.category", codes "category" ∷ codes "extra.alert_category" ∷ [])
    ∷ (codes "alert.action", codes "extra.alert_action" ∷ [])
    ∷ (codes "alert.severity", codes "extra.alert_severity" ∷ [])
    ∷ (codes "signature", codes "signature" ∷ [])
    ∷ (codes "signature_id", codes "signature_id" ∷ [])
    ∷ (codes "note", codes "signature" ∷ [])
    ∷ (codes "rule", codes "signature" ∷ [])
    ∷ (codes "event_type", codes "extra.event_type" ∷ [])
    ∷ (codes "eventtype", codes "extra.event_type" ∷ [])
    ∷ (codes "severity", codes "severity" ∷ [])
    ∷ (codes "source", codes "source" ∷ [])
    ∷ (codes "source_type", codes "source_type" ∷ [])
    ∷ (codes "file_path", codes "file_path" ∷ [])
    ∷ (codes "process_path", codes "process_path" ∷ [])
    ∷ (codes "command_line", codes "command_line" ∷ [])
    ∷ (codes "process_name", codes "process_name" ∷ [])
    ∷ (codes "parent_process_name", codes "parent_process_name" ∷ [])
    ∷ (codes "hostname_net", codes "hostname" ∷ [])
    ∷ (codes "dns_query", codes "dns_query" ∷ [])
    ∷ (codes "category", codes "category" ∷ [])
    ∷ []
