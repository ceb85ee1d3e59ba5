-- ===== src/Behaviour/Pairs/Table.antt =====
-- SUSPICIOUS_PARENT_CHILD of aegis-brain/app/rules/rule_definitions.py.
use aegis_ecosystem.Prelude.{List, [], ◌∷◌, Text, codes}

-- A row; `description` is what stands in front of "'{parent}' -> '{child}'." in every row.
pub record ParentChild : Type 0 where
  pub parents : List Text
  pub children : List Text
  pub severity : Text
  pub description : Text
  pub mitre_tactic_id : Text
  pub mitre_tactic : Text
  pub mitre_technique : Text
  pub mitre_technique_id : Text

abbrev pub suspicious_parent_child : List ParentChild
suspicious_parent_child =
    record {
      parents =
          codes "winword.exe"
          ∷ codes "word.exe"
          ∷ codes "excel.exe"
          ∷ codes "powerpnt.exe"
          ∷ codes "outlook.exe"
          ∷ [];
      children =
          codes "powershell"
          ∷ codes "cmd.exe"
          ∷ codes "wscript.exe"
          ∷ codes "cscript.exe"
          ∷ codes "mshta.exe"
          ∷ codes "rundll32.exe"
          ∷ codes "sh"
          ∷ codes "bash"
          ∷ codes "python"
          ∷ codes "wmic.exe"
          ∷ codes "regsvr32.exe"
          ∷ codes "certutil.exe"
          ∷ codes "bitsadmin.exe"
          ∷ [];
      severity = codes "CRITICAL";
      description = codes "Office process spawning script interpreter: ";
      mitre_tactic_id = codes "TA0002";
      mitre_tactic = codes "Execution";
      mitre_technique = codes "User Execution";
      mitre_technique_id = codes "T1204";
    }
    ∷ record {
      parents =
          codes "chrome.exe"
          ∷ codes "msedge.exe"
          ∷ codes "firefox.exe"
          ∷ codes "opera.exe"
          ∷ codes "brave.exe"
          ∷ codes "iexplore.exe"
          ∷ codes "safari.exe"
          ∷ codes "safari"
          ∷ [];
      children =
          codes "powershell"
          ∷ codes "cmd.exe"
          ∷ codes "wscript.exe"
          ∷ codes "cscript.exe"
          ∷ codes "mshta.exe"
          ∷ codes "sh"
          ∷ codes "bash"
          ∷ codes "python"
          ∷ codes "rundll32.exe"
          ∷ [];
      severity = codes "HIGH";
      description = codes "Browser spawning script interpreter: ";
      mitre_tactic_id = codes "TA0002";
      mitre_tactic = codes "Execution";
      mitre_technique = codes "User Execution";
      mitre_technique_id = codes "T1204";
    }
    ∷ record {
      parents =
          codes "acrord32.exe"
          ∷ codes "acrord64.exe"
          ∷ codes "pdf"
          ∷ codes "reader"
          ∷ codes "foxit"
          ∷ [];
      children =
          codes "powershell"
          ∷ codes "cmd.exe"
          ∷ codes "wscript.exe"
          ∷ codes "mshta.exe"
          ∷ codes "sh"
          ∷ codes "bash"
          ∷ codes "python"
          ∷ [];
      severity = codes "CRITICAL";
      description = codes "PDF reader spawning script interpreter: ";
      mitre_tactic_id = codes "TA0002";
      mitre_tactic = codes "Execution";
      mitre_technique = codes "User Execution";
      mitre_technique_id = codes "T1204";
    }
    ∷ record {
      parents =
          codes "outlook.exe" ∷ codes "thebat.exe" ∷ codes "thunderbird.exe" ∷ codes "mail" ∷ [];
      children =
          codes "powershell"
          ∷ codes "cmd.exe"
          ∷ codes "wscript.exe"
          ∷ codes "cscript.exe"
          ∷ codes "mshta.exe"
          ∷ codes "sh"
          ∷ codes "bash"
          ∷ [];
      severity = codes "CRITICAL";
      description = codes "Email client spawning script interpreter: ";
      mitre_tactic_id = codes "TA0002";
      mitre_tactic = codes "Execution";
      mitre_technique = codes "User Execution";
      mitre_technique_id = codes "T1204";
    }
    ∷ record {
      parents =
          codes "svchost.exe"
          ∷ codes "services.exe"
          ∷ codes "lsass.exe"
          ∷ codes "wininit.exe"
          ∷ codes "system"
          ∷ codes "winlogon.exe"
          ∷ [];
      children =
          codes "powershell"
          ∷ codes "cmd.exe"
          ∷ codes "wscript.exe"
          ∷ codes "cscript.exe"
          ∷ codes "sh"
          ∷ codes "bash"
          ∷ codes "python"
          ∷ [];
      severity = codes "CRITICAL";
      description = codes "System process spawning script interpreter: ";
      mitre_tactic_id = codes "TA0004";
      mitre_tactic = codes "Privilege Escalation";
      mitre_technique = codes "Process Injection";
      mitre_technique_id = codes "T1055";
    }
    ∷ record {
      parents =
          codes "chrome.exe"
          ∷ codes "msedge.exe"
          ∷ codes "firefox.exe"
          ∷ codes "opera.exe"
          ∷ codes "brave.exe"
          ∷ codes "iexplore.exe"
          ∷ codes "winword.exe"
          ∷ codes "excel.exe"
          ∷ codes "powerpnt.exe"
          ∷ codes "acrord32.exe"
          ∷ codes "acrord64.exe"
          ∷ codes "outlook.exe"
          ∷ [];
      children = codes "lsass.exe" ∷ [];
      severity = codes "CRITICAL";
      description = codes "User application spawning lsass.exe: ";
      mitre_tactic_id = codes "TA0004";
      mitre_tactic = codes "Privilege Escalation";
      mitre_technique = codes "Process Injection";
      mitre_technique_id = codes "T1055";
    }
    ∷ record {
      parents =
          codes "chrome.exe"
          ∷ codes "msedge.exe"
          ∷ codes "firefox.exe"
          ∷ codes "opera.exe"
          ∷ codes "brave.exe"
          ∷ codes "iexplore.exe"
          ∷ codes "winword.exe"
          ∷ codes "excel.exe"
          ∷ codes "powerpnt.exe"
          ∷ codes "acrord32.exe"
          ∷ codes "acrord64.exe"
          ∷ codes "outlook.exe"
          ∷ [];
      children =
          codes "svchost.exe"
          ∷ codes "services.exe"
          ∷ codes "wininit.exe"
          ∷ codes "winlogon.exe"
          ∷ codes "csrss.exe"
          ∷ codes "smss.exe"
          ∷ codes "lsaiso.exe"
          ∷ [];
      severity = codes "HIGH";
      description = codes "User application spawning a system process: ";
      mitre_tactic_id = codes "TA0004";
      mitre_tactic = codes "Privilege Escalation";
      mitre_technique = codes "Process Injection";
      mitre_technique_id = codes "T1055";
    }
    ∷ record {
      parents = codes "explorer.exe" ∷ codes "explorer" ∷ [];
      children =
          codes "powershell"
          ∷ codes "cmd.exe"
          ∷ codes "wscript.exe"
          ∷ codes "mshta.exe"
          ∷ codes "regsvr32.exe"
          ∷ codes "rundll32.exe"
          ∷ codes "certutil.exe"
          ∷ [];
      severity = codes "MEDIUM";
      description = codes "Explorer spawning LOLBin: ";
      mitre_tactic_id = codes "TA0005";
      mitre_tactic = codes "Defense Evasion";
      mitre_technique = codes "Signed Binary Proxy Execution";
      mitre_technique_id = codes "T1218";
    }
    ∷ record {
      parents =
          codes "notepad.exe" ∷ codes "wordpad.exe" ∷ codes "mspaint.exe" ∷ codes "calc.exe" ∷ [];
      children = codes "powershell" ∷ codes "cmd.exe" ∷ codes "sh" ∷ codes "bash" ∷ [];
      severity = codes "HIGH";
      description = codes "Utility process spawning script interpreter: ";
      mitre_tactic_id = codes "TA0002";
      mitre_tactic = codes "Execution";
      mitre_technique = codes "User Execution";
      mitre_technique_id = codes "T1204";
    }
    ∷ []
