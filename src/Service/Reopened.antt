-- ===== src/Service/Reopened.antt =====
-- A window that is opened while the service stops.
use pc_helper_ios.Prelude.{ℕ, ◌≡◌, refl, true, false, ◌&&◌, Option, arith, leb, Text}
use pc_helper_ios.Store.{close_store}
use pc_helper_ios.Crypto.Verify.{Primitives}
use pc_helper_ios.Pairing.Manager.{Settings, System, or_default, begin, is_idle, is_opened}
use pc_helper_ios.Pairing.Submit.{shut_down}
use pc_helper_ios.Service.{Service, stop}
use pc_helper_ios.Service.Stopped.{cleanly, shut_down-is_idle}

module _ (p : Primitives) (cfg : Settings) (window_s : Option ℕ) (code : Text) (now wall : ℕ) where
  -- what `pair.begin` does
  abbrev pub begun : System → System
  begun t = (begin p cfg window_s code now wall t).1

  abbrev IsPermitted : Type 0
  IsPermitted =
      (leb 15 (or_default window_s cfg.window_s) && leb (or_default window_s cfg.window_s) 600)
      ≡ true

  begun_opened :
      (t : System)
      → is_idle t.manager.state ≡ true
      → IsPermitted
      → is_opened (begun t).manager.state ≡ true
  unfolding begin
  begun_opened t quiet permitted = ground arith

  -- A service with its context and its store, which serves `pair.begin` for a permitted time after
  -- the pairing was shut down and before the control socket has stopped, ends with its store closed
  -- and the window open.
  pub begin_during_stop :
      (s : Service)
      → s.parts.context ≡ true
      → s.parts.store ≡ true
      → IsPermitted
      → (is_opened (stop (cleanly begun) s).system.manager.state ≡ true)
        × ((stop (cleanly begun) s).system.store.connected ≡ false)
  unfolding stop close_store
  begin_during_stop s context store permitted =
      let opens = begun_opened (shut_down s.system) (shut_down-is_idle s.system) permitted in
      rw (context, store) (opens, refl)
