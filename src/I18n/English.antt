-- ===== src/I18n/English.antt =====
-- pc-service/src/wol_unlock/i18n.py: the English catalogue.
use pc_helper_ios.Prelude.{String, List, [], ◌∷◌}

unfoldable pub en : List (String × String)
en =
    ("never", "never")
    ∷ ("future", "in the future")
    ∷ ("ago.d", "{n}d ago")
    ∷ ("ago.h", "{n}h ago")
    ∷ ("ago.m", "{n}m ago")
    ∷ ("ago.s", "{n}s ago")
    ∷ ("yes", "yes")
    ∷ ("no", "no")
    ∷ ("pair.title", "Pairing mode")
    ∷ ("pair.scan", "Scan the code, or type it into the app.  ")
    ∷ ("pair.expires", "Expires in {n}s")
    ∷ ("pair.willApprove", "You will be asked to approve the device here.")
    ∷ ("pair.fingerprint", "server fingerprint  {fp}…")
    ∷ ("devices.title", "Trusted devices")
    ∷ ("devices.name", "Device")
    ∷ ("devices.id", "ID")
    ∷ ("devices.fp", "Fingerprint")
    ∷ ("devices.platform", "Platform")
    ∷ ("devices.paired", "Paired")
    ∷ ("devices.lastSeen", "Last seen")
    ∷ ("devices.state", "State")
    ∷ ("devices.revoked", "revoked")
    ∷ ("devices.active", "active")
    ∷ ("status.name", "name")
    ∷ ("status.fingerprint", "fingerprint")
    ∷ ("status.api", "api")
    ∷ ("status.uptime", "uptime")
    ∷ ("status.listening", "listening")
    ∷ ("status.allowed", "allowed")
    ∷ ("status.devices", "devices")
    ∷ ("status.capabilities", "capabilities")
    ∷ ("status.unlock", "unlock")
    ∷ ("status.config", "config")
    ∷ ("status.session", "session")
    ∷ ("status.pairing", "pairing")
    ∷ ("status.enabled", "enabled")
    ∷ ("status.disabled", "disabled")
    ∷ ("status.locked", "locked")
    ∷ ("status.unlocked", "unlocked")
    ∷ ("status.noSession", "none found")
    ∷ ("status.pairingOpen", "{state} ({n}s left)")
    ∷ ("status.pairingClosed", "closed")
    ∷ ("wake.title", "Wake targets")
    ∷ ("wake.mac", "MAC")
    ∷ ("wake.iface", "Interface")
    ∷ ("wake.broadcast", "Broadcast")
    ∷ ("wake.link", "Link")
    ∷ ("audit.title", "Recent activity")
    ∷ ("audit.when", "When")
    ∷ ("audit.action", "Action")
    ∷ ("audit.result", "Result")
    ∷ ("audit.device", "Device")
    ∷ ("audit.from", "From")
    ∷ ("audit.detail", "Detail")
    ∷ ("discover.title", "Discovered services (_wol-unlock._tcp)")
    ∷ ("discover.name", "Name")
    ∷ ("discover.host", "Host")
    ∷ ("discover.addresses", "Addresses")
    ∷ ("discover.fp", "Fingerprint")
    ∷ ("discover.caps", "Caps")
    ∷ ("discover.pairing", "Pairing")
    ∷ ("discover.open", "open")
    ∷ ("discover.closed", "closed")
    ∷ ("cli.description", "Manage the wol-unlock service running for this user.")
    ∷ ("cli.socket", "path to the control socket")
    ∷ ("cli.cmd.status", "show service, session and wake status")
    ∷ ("cli.cmd.pair", "open a pairing window and show the code/QR")
    ∷ ("cli.cmd.devices", "list trusted devices")
    ∷ ("cli.cmd.revoke", "revoke a device by id, name or fingerprint prefix")
    ∷ ("cli.cmd.remove", "delete a device record entirely")
    ∷ ("cli.cmd.audit", "show recent activity")
    ∷ ("cli.cmd.discover", "browse the LAN for advertised services")
    ∷ ("cli.opt.window", "window length in seconds")
    ∷ ("cli.opt.noQr", "print only the code")
    ∷ ("cli.opt.lightTerminal", "invert the QR for terminals with a light background")
    ∷ ("cli.opt.yes", "approve the first device automatically (for scripted setup)")
    ∷ ("cli.noDevices", "No devices are paired. Run")
    ∷ ("cli.revoked", "Revoked")
    ∷ ("cli.alreadyRevoked", "{name} was already revoked")
    ∷ ("cli.deleted", "Deleted")
    ∷ ("cli.noActivity", "No activity recorded yet.")
    ∷ ("cli.cancelHint", "Press Ctrl-C to cancel.")
    ∷ ("cli.windowClosed", "Pairing window closed.")
    ∷ ("cli.windowClosedReason", "Pairing window closed: {reason}")
    ∷ ("cli.paired", "Paired")
    ∷ ("cli.pairedHint", "It can now wake and unlock this PC.")
    ∷ ("cli.cancelled", "Cancelled.")
    ∷ ("cli.request.title", "Device requesting access")
    ∷ ("cli.request.name", "name")
    ∷ ("cli.request.platform", "platform")
    ∷ ("cli.request.id", "device id")
    ∷ ("cli.request.fp", "fingerprint")
    ∷ ("cli.autoApprove", "--yes given; approving.")
    ∷ ("cli.approvePrompt", "Approve this device? [y/N] ")
    ∷ ("cli.approveYes", "y")
    ∷ ("cli.denied", "Denied.")
    ∷ ("cli.browsing", "Browsing _wol-unlock._tcp for {timeout:g}s…")
    ∷ ("cli.noServices", "No services found.")
    ∷ ("cli.noServicesHint", "If the service is running here, check that udp/5353 is allowed.")
    ∷ (
      "control.notRunning",
      "cannot reach the service at {path}. Is it running?\n  systemctl --user status wol-unlock",
    )
    ∷ ("control.lost", "the service closed the connection")
    ∷ ("control.closed", "control connection is closed")
    ∷ ("control.timeout", "{command} timed out after {timeout:g}s")
    ∷ ("svc.description", "Signed LAN service for Wake-on-LAN and logind session unlock.")
    ∷ ("svc.opt.config", "path to config.toml")
    ∷ (
      "svc.opt.writeDefault",
      "write a commented config reflecting this machine's interfaces, then exit",
    )
    ∷ ("svc.opt.force", "overwrite an existing config")
    ∷ ("svc.opt.check", "validate the configuration and exit")
    ∷ ("svc.opt.logLevel", "logging verbosity")
    ∷ ("svc.wrote", "Wrote {path}")
    ∷ ("svc.configOk", "Configuration OK ({source})")
    ∷ ("svc.defaults", "built-in defaults")
    ∷ ("svc.name", "name")
    ∷ ("svc.listen", "listen")
    ∷ ("svc.allowed", "allowed")
    ∷ ("svc.capabilities", "capabilities")
    ∷ ("svc.wakeTargets", "wake targets")
    ∷ ("svc.stateDir", "state dir")
    ∷ ("svc.controlSocket", "control socket")
    ∷ []
