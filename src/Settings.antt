-- ===== src/Settings.antt =====
-- config/config.go: the settings from environment variables; `env` is os.Getenv.
use mini_kube_scheduler.Common.{◌≡◌, ◌≢◌, ◌↔◌, arith, ◌⊎◌, inl, inr, [], ◌∷◌, none, some}
use mini_kube_scheduler.Common.Int.{ℤ}
use mini_kube_scheduler.Common.Keys.{Text, str}
use mini_kube_scheduler.Strconv.{atoi}

pub record Config : Type 0 where
  pub port : ℤ
  pub etcd_url : Text
  pub frontend_url : Text

-- Why a variable cannot be used: ErrEmptyEnv, or an error of Atoi.
pub data EnvError : Type 0 where
  empty_env not_an_int : EnvError

-- The error of NewConfig, by the setting that it names.
pub data ConfigError : Type 0 where
  get_port_failed get_etcd_url_failed get_frontend_url_failed : EnvError → ConfigError

infixl 5 ◌>>=◌
abbrev ◌>>=◌ : {E A B : Type 0} → E ⊎ A → (A → E ⊎ B) → E ⊎ B
inl e >>= f = inl e
inr a >>= f = f a

abbrev named : {E F A : Type 0} → (E → F) → E ⊎ A → F ⊎ A
named name (inl e) = inl (name e)
named name (inr a) = inr a

-- A value that must not be empty.
non_empty : Text → EnvError ⊎ Text
non_empty [] = inl empty_env
non_empty (c ∷ cs) = inr (c ∷ cs)

port_of : Text → EnvError ⊎ ℤ
unfolding non_empty
port_of p = do p' ← non_empty p; elim (atoi p') [ none ↦ inl not_an_int | some port ↦ inr port ]

-- The three settings, in the order of the checks.
config_of : EnvError ⊎ ℤ → EnvError ⊎ Text → EnvError ⊎ Text → ConfigError ⊎ Config
config_of port etcd_url frontend_url = do
  port' ← named get_port_failed port
  etcd_url' ← named get_etcd_url_failed etcd_url
  frontend_url' ← named get_frontend_url_failed frontend_url
  inr (record { port = port'; etcd_url = etcd_url'; frontend_url = frontend_url' })

port_of_iff : (p : Text) (port : ℤ) → (port_of p ≡ inr port) ↔ (atoi p ≡ some port)
unfolding port_of atoi
port_of_iff [] port = ((λ h. absurd (cc h)), (λ h. absurd (cc h)))
port_of_iff (c ∷ cs) port = ground arith

non_empty_iff : (t u : Text) → (non_empty t ≡ inr u) ↔ ((t ≡ u) × (u ≢ []))
unfolding non_empty
non_empty_iff [] u = ground arith
non_empty_iff (c ∷ cs) u = ground arith

config_of_iff :
    (p : EnvError ⊎ ℤ) (e f : EnvError ⊎ Text) (c : Config)
    → (config_of p e f ≡ inr c)
      ↔ ((p ≡ inr c.port) × (e ≡ inr c.etcd_url) × (f ≡ inr c.frontend_url))
unfolding config_of
config_of_iff p e f c = ground arith

module _ (env : Text → Text) where
  get_port : EnvError ⊎ ℤ
  unfolding port_of
  get_port = port_of (env (str "PORT"))

  get_etcd_url : EnvError ⊎ Text
  get_etcd_url = non_empty (env (str "KUBE_SCHEDULER_SIMULATOR_ETCD_URL"))

  get_frontend_url : EnvError ⊎ Text
  get_frontend_url = non_empty (env (str "FRONTEND_URL"))

  unfoldable pub new_config : ConfigError ⊎ Config
  unfolding get_port get_etcd_url get_frontend_url config_of
  new_config = config_of get_port get_etcd_url get_frontend_url

  -- NewConfig returns a configuration exactly when PORT reads as its port, and its URLs are those of
  -- the environment and not empty.
  pub new_config_iff :
      (c : Config)
      → (new_config ≡ inr c) ↔ (
          (atoi (env (str "PORT")) ≡ some c.port)
          × ((env (str "KUBE_SCHEDULER_SIMULATOR_ETCD_URL") ≡ c.etcd_url) × (c.etcd_url ≢ []))
          × (env (str "FRONTEND_URL") ≡ c.frontend_url)
          × (c.frontend_url ≢ []))
  unfolding new_config get_port get_etcd_url get_frontend_url
  new_config_iff c =
      let all = config_of_iff get_port get_etcd_url get_frontend_url c in
      let port = port_of_iff (env (str "PORT")) c.port in
      let etcd = non_empty_iff (env (str "KUBE_SCHEDULER_SIMULATOR_ETCD_URL")) c.etcd_url in
      let frontend = non_empty_iff (env (str "FRONTEND_URL")) c.frontend_url in
      (
        (λ h. let (p, e, f) = all.0 h in (port.0 p, etcd.0 e, (frontend.0 f).0, (frontend.0 f).1)),
        (λ (p, e, f, g). all.1 (port.1 p, etcd.1 e, frontend.1 (f, g))),
      )
