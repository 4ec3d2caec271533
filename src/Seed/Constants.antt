-- ===== src/Seed/Constants.antt =====
-- The constants of seed.py: names, sources, and the alerts' texts with their fields in braces.
use soc_dashboard.Common.{String, List, [], ◌∷◌, Dict}

abbrev pub analysts : List String
analysts = "alice" ∷ "bob" ∷ "charlie" ∷ []

abbrev pub action_to_status : Dict String
action_to_status =
    ("classify_tp", "true_positive")
    ∷ ("classify_fp", "false_positive")
    ∷ ("escalate", "escalated")
    ∷ []

abbrev pub sources : Dict String
sources =
    ("brute_force", "Auth Logs")
    ∷ ("malware", "EDR")
    ∷ ("phishing", "Email Gateway")
    ∷ ("port_scan", "Firewall/IDS")
    ∷ ("anomaly", "SIEM/UEBA")
    ∷ []

abbrev pub hosts : List String
hosts =
    "WIN-DC01" ∷ "FIN-WS07" ∷ "HR-LT12" ∷ "WEB-PROD-03" ∷ "DB-CORE-01" ∷ "ENG-MAC22" ∷ "VPN-GW01"
    ∷ "SRV-APP09" ∷ "MKT-WS18" ∷ "OPS-JUMP02" ∷ []

abbrev pub users : List String
users =
    "jdoe" ∷ "asmith" ∷ "mpatel" ∷ "rking" ∷ "lchen" ∷ "twong" ∷ "svc_backup" ∷ "admin" ∷ "kbrown"
    ∷ "ngarcia" ∷ []

abbrev brute_force_templates : List (String × String)
brute_force_templates =
    (
      "SSH brute-force against {host}",
      "{n} failed SSH logins for user {user} from {ip} within 2 minutes.",
    )
    ∷ (
      "RDP password spray detected",
      "Multiple failed RDP authentications from {ip} targeting {n} accounts.",
    )
    ∷ (
      "Failed login burst on VPN gateway",
      "{n} failed VPN auth attempts from {ip} for account {user}.",
    )
    ∷ (
      "Repeated 401s on admin portal",
      "Login endpoint hit {n} times with bad credentials from {ip}.",
    )
    ∷ (
      "SMB authentication failures",
      "Account lockout triggered after {n} failed SMB logons from {ip}.",
    )
    ∷ []

abbrev malware_templates : List (String × String)
malware_templates =
    (
      "Trojan.Emotet detected on {host}",
      "EDR quarantined Emotet payload dropped by {ip}; persistence attempted.",
    )
    ∷ (
      "Ransomware behavior on endpoint",
      "Mass file rename + shadow-copy deletion observed on {host}.",
    )
    ∷ ("Cobalt Strike beacon to {ip}", "Periodic beaconing to known C2 {ip} from {host}.")
    ∷ (
      "Suspicious PowerShell encoded command",
      "Base64 PowerShell spawned by Office process on {host}.",
    )
    ∷ (
      "Known malware hash executed",
      "Process on {host} matched threat-intel hash; outbound to {ip}.",
    )
    ∷ []

abbrev phishing_templates : List (String × String)
phishing_templates =
    (
      "Credential-harvesting email reported",
      "User reported phishing email with link to fake O365 login from {ip}.",
    )
    ∷ (
      "Spoofed CEO wire-transfer request",
      "BEC email impersonating executive sent to finance; reply-to {ip}.",
    )
    ∷ ("Malicious attachment delivered", "Macro-enabled doc detected in inbound mail from {ip}.")
    ∷ (
      "Phishing link clicked by {user}",
      "Proxy logged {user} visiting credential-phish domain hosted at {ip}.",
    )
    ∷ (
      "OAuth consent phishing attempt",
      "Suspicious app consent grant requested for {user} via {ip}.",
    )
    ∷ []

abbrev port_scan_templates : List (String × String)
port_scan_templates =
    ("Horizontal port scan from {ip}", "{ip} probed TCP/22,80,443,3389 across {n} internal hosts.")
    ∷ ("Nmap SYN scan detected", "Stealth SYN scan from {ip} hit {n} ports on {host}.")
    ∷ ("External recon on perimeter", "Firewall logged {n} dropped probes from {ip} in 60s.")
    ∷ ("Vertical scan against {host}", "{ip} swept {n} ports on a single host {host}.")
    ∷ ("UDP service enumeration", "{ip} enumerated UDP services across {n} hosts.")
    ∷ []

abbrev anomaly_templates : List (String × String)
anomaly_templates =
    (
      "Impossible travel for {user}",
      "{user} signed in from two countries within 20 minutes (last IP {ip}).",
    )
    ∷ ("Off-hours data exfiltration", "{host} uploaded {n} MB to {ip} at 03:00 local time.")
    ∷ ("Privilege escalation anomaly", "{user} added to Domain Admins outside change window.")
    ∷ ("Unusual DNS volume", "{host} issued {n} DNS queries to {ip} (possible tunneling).")
    ∷ ("New admin login geo-anomaly", "First-ever admin login for {user} from {ip}.")
    ∷ []

abbrev pub templates : Dict (List (String × String))
templates =
    ("brute_force", brute_force_templates)
    ∷ ("malware", malware_templates)
    ∷ ("phishing", phishing_templates)
    ∷ ("port_scan", port_scan_templates)
    ∷ ("anomaly", anomaly_templates)
    ∷ []
