-- ===== src/Config/Load/Tables.antt =====
-- config.py: what the tables of a file make of the default configuration.
use phonect.Prelude.{String, false, ◌≡◌, refl, ◌∙◌, ap, sym}
use mathlib.Core.Path.{subst}
use phonect.Python.{ℤ, pos, bool, int, float, str, list, nil, Dict, get, ok}
use phonect.Python.Results.{Ensures, >>=-Ensures, ok_injective}
use phonect.Python.Paths.{PurePath}
use phonect.Config.{validate_unlock_config}
use phonect.Config.Unlock.{IsUnlock, validate_unlock_config_iff}
use phonect.Config.Load.{
  Toml, Environment, DaemonConfig, defaults, unlock_config, as_table, setting, public_key_file,
  private_key_file, apply_keys, apply_device, apply_daemon, parse_config, to_int, to_float,
  key_path,
}

module _ (toml : Toml) (env : Environment) where
  -- What the four tables of a file say, the later one taking precedence.
  pub record Loaded (dir : PurePath) (document : Dict) (c : DaemonConfig) : Type 0 where
    pub keys : Dict
    pub device : Dict
    pub daemon : Dict
    pub logging : Dict
    pub keys_table : as_table (get "keys" document) ≡ ok keys
    pub device_table : as_table (get "device" document) ≡ ok device
    pub daemon_table : as_table (get "daemon" document) ≡ ok daemon
    pub logging_table : as_table (get "logging" document) ≡ ok logging
    pub config_dir : c.config_dir ≡ dir
    pub pc_name : c.pc_name ≡ setting "pc_name" (setting "pc_name" (str "") device) daemon
    pub unlock_on_start :
        c.unlock_on_start
        ≡ setting "unlock_on_start" (setting "unlock_on_start" (bool false) device) daemon
    pub public_key_path :
        key_path env (setting "public_key" (str "") keys) (public_key_file dir)
        ≡ ok c.public_key_path
    pub private_key_path :
        key_path env (setting "private_key" (str "") keys) (private_key_file dir)
        ≡ ok c.private_key_path
    pub listen_host : c.listen_host ≡ setting "listen_host" (str "0.0.0.0") daemon
    pub listen_port : to_int toml (setting "listen_port" (int (pos 9876)) daemon) ≡ ok c.listen_port
    pub poll_interval :
        to_float toml (setting "poll_interval" (float "0.3") daemon) ≡ ok c.poll_interval
    pub poll_timeout :
        to_float toml (setting "poll_timeout" (float "15.0") daemon) ≡ ok c.poll_timeout
    pub unlock_backend : c.unlock_backend ≡ setting "unlock_backend" (str "loginctl") daemon
    pub unlock_command : c.unlock_command ≡ setting "unlock_command" (list nil) daemon
    pub log_level : c.log_level ≡ setting "level" (str "INFO") logging
    pub settings : IsUnlock (unlock_config c)

  -- what the table [keys] sets
  abbrev with_paths : PurePath → PurePath → PurePath → DaemonConfig
  with_paths dir public private = record (defaults dir) {
    public_key_path = public;
    private_key_path = private;
  }

  apply_keys-eq-ok :
      (dir : PurePath) (keys : Dict)
      → Ensures
          (λ w.
            (public : PurePath) × (private : PurePath) × (w ≡ with_paths dir public private)
            × (key_path env (setting "public_key" (str "") keys) (public_key_file dir) ≡ ok public)
            × (key_path env (setting "private_key" (str "") keys) (private_key_file dir)
                ≡ ok private))
          (apply_keys toml env keys (defaults dir))
  unfolding apply_keys
  apply_keys-eq-ok dir keys =
      >>=-Ensures _ (key_path env (setting "public_key" (str "") keys) (public_key_file dir)) _
        λ public pu.
          >>=-Ensures _ (key_path env (setting "private_key" (str "") keys) (private_key_file dir))
            _ λ private pr w e. (public, private, sym (ok_injective e), pu, pr)

  -- what the table [daemon] sets
  abbrev with_network : Dict → DaemonConfig → ℤ → String → String → DaemonConfig
  with_network daemon c port interval timeout = record c {
    listen_host = setting "listen_host" c.listen_host daemon;
    listen_port = port;
    poll_interval = interval;
    poll_timeout = timeout;
    unlock_backend = setting "unlock_backend" c.unlock_backend daemon;
    unlock_command = setting "unlock_command" c.unlock_command daemon;
    pc_name = setting "pc_name" c.pc_name daemon;
    unlock_on_start = setting "unlock_on_start" c.unlock_on_start daemon;
  }

  apply_daemon-eq-ok :
      (daemon : Dict) (c : DaemonConfig)
      → Ensures
          (λ w.
            (port : ℤ) × (interval : String) × (timeout : String) × (w
              ≡ with_network daemon c port interval timeout)
            × (to_int toml (setting "listen_port" (int c.listen_port) daemon) ≡ ok port)
            × (to_float toml (setting "poll_interval" (float c.poll_interval) daemon) ≡ ok interval)
            × (to_float toml (setting "poll_timeout" (float c.poll_timeout) daemon) ≡ ok timeout))
          (apply_daemon toml daemon c)
  unfolding apply_daemon
  apply_daemon-eq-ok daemon c =
      >>=-Ensures _ (to_int toml (setting "listen_port" (int c.listen_port) daemon)) _ λ port p.
        >>=-Ensures _ (to_float toml (setting "poll_interval" (float c.poll_interval) daemon)) _
          λ interval i.
            >>=-Ensures _ (to_float toml (setting "poll_timeout" (float c.poll_timeout) daemon)) _
              λ timeout t w e. (port, interval, timeout, sym (ok_injective e), p, i, t)

  -- the configuration that the tables and the converted settings make
  abbrev made :
      PurePath → Dict → Dict → Dict → PurePath → PurePath → ℤ → String → String → DaemonConfig
  made dir device daemon logging public private port interval timeout =
      let w : DaemonConfig =
        with_network daemon (apply_device toml device (with_paths dir public private)) port interval
          timeout in
      record w { log_level = setting "level" w.log_level logging }

  made-Loaded :
      (dir : PurePath) (document : Dict) (keys device daemon logging : Dict)
      (public private : PurePath) (port : ℤ) (interval timeout : String)
      → as_table (get "keys" document) ≡ ok keys
      → as_table (get "device" document) ≡ ok device
      → as_table (get "daemon" document) ≡ ok daemon
      → as_table (get "logging" document) ≡ ok logging
      → validate_unlock_config
          (unlock_config (made dir device daemon logging public private port interval timeout))
        ≡ ok tt
      → key_path env (setting "public_key" (str "") keys) (public_key_file dir) ≡ ok public
      → key_path env (setting "private_key" (str "") keys) (private_key_file dir) ≡ ok private
      → to_int toml (setting "listen_port" (int (pos 9876)) daemon) ≡ ok port
      → to_float toml (setting "poll_interval" (float "0.3") daemon) ≡ ok interval
      → to_float toml (setting "poll_timeout" (float "15.0") daemon) ≡ ok timeout
      → Loaded dir document (made dir device daemon logging public private port interval timeout)
  unfolding apply_device
  made-Loaded dir document keys device daemon logging public private port interval timeout k dv dm
        lg valid pu pr po pi pt =
      record {
        keys = keys;
        device = device;
        daemon = daemon;
        logging = logging;
        keys_table = k;
        device_table = dv;
        daemon_table = dm;
        logging_table = lg;
        config_dir = refl;
        pc_name = refl;
        unlock_on_start = refl;
        public_key_path = pu;
        private_key_path = pr;
        listen_host = refl;
        listen_port = po;
        poll_interval = pi;
        poll_timeout = pt;
        unlock_backend = refl;
        unlock_command = refl;
        log_level = refl;
        settings = (validate_unlock_config_iff _).0.0 valid;
      }

  pub parse_config-Loaded :
      (dir : PurePath) (document : Dict)
      → Ensures (Loaded dir document) (parse_config toml env dir document)
  unfolding parse_config apply_device
  parse_config-Loaded dir document = >>=-Ensures P (as_table (get "keys" document)) _ λ keys k.
      >>=-Ensures P (apply_keys toml env keys (defaults dir)) _ λ with_keys wk.
        >>=-Ensures P (as_table (get "device" document)) _ λ device dv.
          >>=-Ensures P (as_table (get "daemon" document)) _ λ daemon dm.
            >>=-Ensures P (apply_daemon toml daemon (apply_device toml device with_keys)) _
              λ with_daemon wd. >>=-Ensures P (as_table (get "logging" document)) _ λ logging lg.
                >>=-Ensures P (validate_unlock_config _) _ λ _ valid c e.
                  let (public, private, ke, pu, pr) = apply_keys-eq-ok dir keys with_keys wk in
                  let (port, interval, timeout, de, po, pi, pt) =
                    apply_daemon-eq-ok daemon (apply_device toml device with_keys) with_daemon wd in
                  let step : with_daemon
                      ≡ with_network daemon
                          (apply_device toml device (with_paths dir public private)) port interval
                          timeout =
                    de
                    ∙ ap
                        (λ w.
                          with_network daemon (apply_device toml device w) port interval timeout)
                        ke in
                  let shape : record with_daemon {
                    log_level = setting "level" with_daemon.log_level logging;
                  }
                      ≡ made dir device daemon logging public private port interval timeout =
                    ap
                      (λ (w : DaemonConfig). record w {
                        log_level = setting "level" w.log_level logging;
                      })
                      step in
                  subst P (sym shape ∙ ok_injective e) (
                    made-Loaded dir document keys device daemon logging public private port interval
                      timeout k dv dm lg
                      (subst (λ w. validate_unlock_config (unlock_config w) ≡ ok tt) shape valid) pu
                      pr
                      (subst
                        (λ w.
                          to_int toml (
                            setting "listen_port" (int (apply_device toml device w).listen_port)
                              daemon)
                          ≡ ok port)
                        ke po)
                      (subst
                        (λ w.
                          to_float toml (
                            setting "poll_interval"
                              (float (apply_device toml device w).poll_interval) daemon)
                          ≡ ok interval)
                        ke pi)
                      (subst
                        (λ w.
                          to_float toml (
                            setting "poll_timeout" (float (apply_device toml device w).poll_timeout)
                              daemon)
                          ≡ ok timeout)
                        ke pt))
    where
      P : DaemonConfig → Type 0
      P = Loaded dir document
