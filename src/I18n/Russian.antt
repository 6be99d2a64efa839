-- ===== src/I18n/Russian.antt =====
-- pc-service/src/wol_unlock/i18n.py: the Russian catalogue.
use pc_helper_ios.Prelude.{String, List, [], ◌∷◌}

unfoldable pub ru : List (String × String)
ru =
    ("never", "никогда")
    ∷ ("future", "в будущем")
    ∷ ("ago.d", "{n} д назад")
    ∷ ("ago.h", "{n} ч назад")
    ∷ ("ago.m", "{n} мин назад")
    ∷ ("ago.s", "{n} с назад")
    ∷ ("yes", "да")
    ∷ ("no", "нет")
    ∷ ("pair.title", "Режим сопряжения")
    ∷ ("pair.scan", "Отсканируйте код или введите его в приложении.  ")
    ∷ ("pair.expires", "Истекает через {n} с")
    ∷ ("pair.willApprove", "Здесь потребуется подтвердить устройство.")
    ∷ ("pair.fingerprint", "отпечаток сервера  {fp}…")
    ∷ ("devices.title", "Доверенные устройства")
    ∷ ("devices.name", "Устройство")
    ∷ ("devices.id", "ID")
    ∷ ("devices.fp", "Отпечаток")
    ∷ ("devices.platform", "Платформа")
    ∷ ("devices.paired", "Сопряжено")
    ∷ ("devices.lastSeen", "Последняя связь")
    ∷ ("devices.state", "Состояние")
    ∷ ("devices.revoked", "отозвано")
    ∷ ("devices.active", "активно")
    ∷ ("status.name", "имя")
    ∷ ("status.fingerprint", "отпечаток")
    ∷ ("status.api", "api")
    ∷ ("status.uptime", "аптайм")
    ∷ ("status.listening", "слушает")
    ∷ ("status.allowed", "разрешено")
    ∷ ("status.devices", "устройства")
    ∷ ("status.capabilities", "возможности")
    ∷ ("status.unlock", "разблокировка")
    ∷ ("status.config", "конфиг")
    ∷ ("status.session", "сеанс")
    ∷ ("status.pairing", "сопряжение")
    ∷ ("status.enabled", "включена")
    ∷ ("status.disabled", "выключена")
    ∷ ("status.locked", "заблокирован")
    ∷ ("status.unlocked", "разблокирован")
    ∷ ("status.noSession", "не найден")
    ∷ ("status.pairingOpen", "{state} (осталось {n} с)")
    ∷ ("status.pairingClosed", "закрыто")
    ∷ ("wake.title", "Цели пробуждения")
    ∷ ("wake.mac", "MAC")
    ∷ ("wake.iface", "Интерфейс")
    ∷ ("wake.broadcast", "Широковещание")
    ∷ ("wake.link", "Линк")
    ∷ ("audit.title", "Недавняя активность")
    ∷ ("audit.when", "Когда")
    ∷ ("audit.action", "Действие")
    ∷ ("audit.result", "Результат")
    ∷ ("audit.device", "Устройство")
    ∷ ("audit.from", "Откуда")
    ∷ ("audit.detail", "Подробности")
    ∷ ("discover.title", "Найденные службы (_wol-unlock._tcp)")
    ∷ ("discover.name", "Имя")
    ∷ ("discover.host", "Хост")
    ∷ ("discover.addresses", "Адреса")
    ∷ ("discover.fp", "Отпечаток")
    ∷ ("discover.caps", "Возможности")
    ∷ ("discover.pairing", "Сопряжение")
    ∷ ("discover.open", "открыто")
    ∷ ("discover.closed", "закрыто")
    ∷ ("cli.description", "Управление службой wol-unlock, запущенной для этого пользователя.")
    ∷ ("cli.socket", "путь к управляющему сокету")
    ∷ ("cli.cmd.status", "показать состояние службы, сеанса и пробуждения")
    ∷ ("cli.cmd.pair", "открыть окно сопряжения и показать код/QR")
    ∷ ("cli.cmd.devices", "список доверенных устройств")
    ∷ ("cli.cmd.revoke", "отозвать устройство по id, имени или началу отпечатка")
    ∷ ("cli.cmd.remove", "полностью удалить запись об устройстве")
    ∷ ("cli.cmd.audit", "показать недавнюю активность")
    ∷ ("cli.cmd.discover", "искать объявленные службы в локальной сети")
    ∷ ("cli.opt.window", "длительность окна в секундах")
    ∷ ("cli.opt.noQr", "печатать только код")
    ∷ ("cli.opt.lightTerminal", "инвертировать QR для терминалов со светлым фоном")
    ∷ ("cli.opt.yes", "автоматически подтвердить первое устройство (для скриптов)")
    ∷ ("cli.noDevices", "Нет сопряжённых устройств. Выполните")
    ∷ ("cli.revoked", "Отозвано")
    ∷ ("cli.alreadyRevoked", "{name} уже было отозвано")
    ∷ ("cli.deleted", "Удалено")
    ∷ ("cli.noActivity", "Активность пока не записана.")
    ∷ ("cli.cancelHint", "Нажмите Ctrl-C для отмены.")
    ∷ ("cli.windowClosed", "Окно сопряжения закрыто.")
    ∷ ("cli.windowClosedReason", "Окно сопряжения закрыто: {reason}")
    ∷ ("cli.paired", "Сопряжено")
    ∷ ("cli.pairedHint", "Теперь оно может будить и разблокировать этот ПК.")
    ∷ ("cli.cancelled", "Отменено.")
    ∷ ("cli.request.title", "Устройство запрашивает доступ")
    ∷ ("cli.request.name", "имя")
    ∷ ("cli.request.platform", "платформа")
    ∷ ("cli.request.id", "id устройства")
    ∷ ("cli.request.fp", "отпечаток")
    ∷ ("cli.autoApprove", "передан --yes; подтверждаю.")
    ∷ ("cli.approvePrompt", "Подтвердить это устройство? [д/Н] ")
    ∷ ("cli.approveYes", "д")
    ∷ ("cli.denied", "Отклонено.")
    ∷ ("cli.browsing", "Поиск _wol-unlock._tcp в течение {timeout:g} с…")
    ∷ ("cli.noServices", "Службы не найдены.")
    ∷ ("cli.noServicesHint", "Если служба запущена здесь, проверьте, что udp/5353 разрешён.")
    ∷ (
      "control.notRunning",
      "не удаётся связаться со службой по адресу {path}. Она запущена?\n  systemctl --user status wol-unlock",
    )
    ∷ ("control.lost", "служба закрыла соединение")
    ∷ ("control.closed", "управляющее соединение закрыто")
    ∷ ("control.timeout", "{command} не ответил за {timeout:g} с")
    ∷ (
      "svc.description",
      "Подписанная служба локальной сети для Wake-on-LAN и разблокировки сеанса logind.",
    )
    ∷ ("svc.opt.config", "путь к config.toml")
    ∷ (
      "svc.opt.writeDefault",
      "записать конфиг с комментариями, отражающий интерфейсы этой машины, и выйти",
    )
    ∷ ("svc.opt.force", "перезаписать существующий конфиг")
    ∷ ("svc.opt.check", "проверить конфигурацию и выйти")
    ∷ ("svc.opt.logLevel", "подробность журнала")
    ∷ ("svc.wrote", "Записано {path}")
    ∷ ("svc.configOk", "Конфигурация в порядке ({source})")
    ∷ ("svc.defaults", "встроенные значения по умолчанию")
    ∷ ("svc.name", "имя")
    ∷ ("svc.listen", "слушает")
    ∷ ("svc.allowed", "разрешено")
    ∷ ("svc.capabilities", "возможности")
    ∷ ("svc.wakeTargets", "цели пробуждения")
    ∷ ("svc.stateDir", "каталог состояния")
    ∷ ("svc.controlSocket", "управляющий сокет")
    ∷ []
