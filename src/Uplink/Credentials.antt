-- ===== src/Uplink/Credentials.antt =====
-- internal/uplink/grpc.go, dialOption: which transport credentials the uplink dials with. The files, the
-- key pair and net.SplitHostPort are parameters.
use tom_ai_agent.Base.{
  ◌==◌, if◌then◌else◌, Bool-cases, Option-cases, length, GoString, ℕ, ◌≡◌, refl, ◌⊎◌, inl, inr,
  Bool, true, false, not, ◌&&◌, Option, none, some, List, [], ◌∷◌, arith,
}
use tom_ai_agent.Config.{UplinkConf}

pub data DialError : Type 0 where
  insecure_not_allowed ca_unreadable ca_invalid key_pair_invalid addr_invalid : DialError

-- The libraries and the files, `none` being an error: AppendCertsFromPEM to an empty pool, LoadX509KeyPair
-- of the files with the two names, and the host of SplitHostPort.
pub record Files : Type 1 where
  pub KeyPair : Type 0
  pub CertPool : Type 0
  pub read_file : GoString → Option GoString
  pub certificates_of : GoString → Option CertPool
  pub load_key_pair : GoString → GoString → Option KeyPair
  pub split_host : GoString → Option GoString

-- tls.VersionTLS13
unfoldable pub version_tls13 : ℕ
version_tls13 = 772

unfoldable pub is_empty : GoString → Bool
is_empty s = length s == 0

module _ (fs : Files) where
  open fs use {KeyPair, CertPool, read_file, certificates_of, load_key_pair, split_host}

  pub record TlsConfig : Type 0 where
    pub certificates : List KeyPair
    pub root_cas : CertPool
    pub server_name : GoString
    pub min_version : ℕ

  pub data DialOption : Type 0 where
    plaintext : DialOption
    mutual_tls : TlsConfig → DialOption
    dial_failed : DialError → DialOption

  unfoldable pub tls_config : KeyPair → CertPool → GoString → TlsConfig
  unfolding version_tls13
  tls_config cert pool name = record {
    certificates = cert ∷ [];
    root_cas = pool;
    server_name = name;
    min_version = version_tls13;
  }

  unfoldable pub dial_option : UplinkConf → DialOption
  unfolding is_empty tls_config
  dial_option cfg =
      if is_empty cfg.ca_file && (is_empty cfg.cert_file && is_empty cfg.key_file)
      then if not cfg.insecure then dial_failed insecure_not_allowed else plaintext
      else elim (read_file cfg.ca_file) [
        | none ↦ dial_failed ca_unreadable
        | some pem ↦ elim (certificates_of pem) [
          | none ↦ dial_failed ca_invalid
          | some pool ↦ elim (load_key_pair cfg.cert_file cfg.key_file) [
            | none ↦ dial_failed key_pair_invalid
            | some cert ↦
                if not (is_empty cfg.server_name)
                then mutual_tls (tls_config cert pool cfg.server_name)
                else elim (split_host cfg.addr) [
                  | none ↦ dial_failed addr_invalid
                  | some host ↦ mutual_tls (tls_config cert pool host)
                ]
          ]
        ]
      ]

empty_file : (s : GoString) → is_empty s ≡ true → s ≡ []
unfolding is_empty
empty_file [] e = refl
empty_file (x ∷ s) e = absurd (ground (arith, e))

abbrev no_files : UplinkConf → Bool
no_files cfg = is_empty cfg.ca_file && (is_empty cfg.cert_file && is_empty cfg.key_file)

-- Plain text is allowed.
abbrev pub Allowed : UplinkConf → Type 0
Allowed cfg =
    (cfg.insecure ≡ true) × (cfg.ca_file ≡ []) × (cfg.cert_file ≡ []) × (cfg.key_file ≡ [])

no_files-empty :
    (cfg : UplinkConf)
    → no_files cfg ≡ true
    → (cfg.ca_file ≡ []) × (cfg.cert_file ≡ []) × (cfg.key_file ≡ [])
no_files-empty cfg all = (
  empty_file cfg.ca_file (ground (arith, all)),
  empty_file cfg.cert_file (ground (arith, all)),
  empty_file cfg.key_file (ground (arith, all)),
)

some_files-Allowed : (cfg : UplinkConf) → no_files cfg ≡ false → ¬ Allowed cfg
unfolding is_empty
some_files-Allowed cfg e (_, ca, cert, key) =
    let all : no_files cfg ≡ true = rw (ca, cert, key) refl in cc (e, all)

module _ (fs : Files) where
  open fs use {KeyPair, CertPool, read_file, certificates_of, load_key_pair, split_host}

  -- The name that the certificate of the server must have.
  abbrev pub NameOf : UplinkConf → GoString → Type 0
  NameOf cfg name =
      ((is_empty cfg.server_name ≡ false) × (cfg.server_name ≡ name))
      ⊎ ((is_empty cfg.server_name ≡ true) × (split_host cfg.addr ≡ some name))

  -- The client shows the key pair of the two files, trusts the certificates of the CA file alone, asks for the
  -- configured name or else the host of the address, and speaks no TLS below 1.3.
  pub record IsMutual (cfg : UplinkConf) (t : TlsConfig fs) : Type 0 where
    pub asked : no_files cfg ≡ false
    pub pem : GoString
    pub cert : KeyPair
    pub ca_read : read_file cfg.ca_file ≡ some pem
    pub trusts : certificates_of pem ≡ some t.root_cas
    pub loaded_pair : load_key_pair cfg.cert_file cfg.key_file ≡ some cert
    pub shows : t.certificates ≡ cert ∷ []
    pub named : NameOf cfg t.server_name
    pub at_least : t.min_version ≡ 772

  abbrev pub Justified : UplinkConf → DialOption fs → Type 0
  Justified cfg (dial_failed e) = (¬ Allowed cfg) × ((t : TlsConfig fs) → ¬ IsMutual cfg t)
  Justified cfg plaintext = Allowed cfg
  Justified cfg (mutual_tls t) = IsMutual cfg t

  module _ (cfg : UplinkConf) (some_files : no_files cfg ≡ false) where
    unread : read_file cfg.ca_file ≡ none → (t : TlsConfig fs) → ¬ IsMutual cfg t
    unread e t m = let e' = m.ca_read in cc (e, e')

    uncertified :
        (pem : GoString)
        → read_file cfg.ca_file ≡ some pem
        → certificates_of pem ≡ none
        → (t : TlsConfig fs) → ¬ IsMutual cfg t
    uncertified pem found e t m = let e' = m.ca_read in let k = m.trusts in cc (found, e, e', k)

    unpaired :
        load_key_pair cfg.cert_file cfg.key_file ≡ none → (t : TlsConfig fs) → ¬ IsMutual cfg t
    unpaired e t m = let e' = m.loaded_pair in cc (e, e')

    unnamed_host :
        is_empty cfg.server_name ≡ true
        → split_host cfg.addr ≡ none
        → (t : TlsConfig fs) → ¬ IsMutual cfg t
    unnamed_host empty e t m = elim m.named [
      | inl (given, _) ↦ cc (empty, given)
      | inr (_, split) ↦ cc (e, split)
    ]

    paired-Justified :
        (pem : GoString) (pool : CertPool) (cert : KeyPair)
        → read_file cfg.ca_file ≡ some pem
        → certificates_of pem ≡ some pool
        → load_key_pair cfg.cert_file cfg.key_file ≡ some cert
        → Justified cfg (dial_option fs cfg)
    unfolding dial_option tls_config version_tls13
    paired-Justified pem pool cert found valid pair = elim (Bool-cases (is_empty cfg.server_name)) [
      | inr given ↦
          rw (dial_option, some_files, found, valid, pair, given)
            (dials cfg.server_name (inl (given, refl)))
      | inl empty ↦ elim (Option-cases (split_host cfg.addr)) [
        | inl bad ↦
            rw (dial_option, some_files, found, valid, pair, empty, bad)
              (some_files-Allowed cfg some_files, unnamed_host empty bad)
        | inr (host, split) ↦
            rw (dial_option, some_files, found, valid, pair, empty, split)
              (dials host (inr (empty, split)))
      ]
    ]
      where
        dials : (name : GoString) → NameOf cfg name → IsMutual cfg (tls_config fs cert pool name)
        dials name is = record {
          asked = some_files;
          pem = pem;
          cert = cert;
          ca_read = found;
          trusts = valid;
          loaded_pair = pair;
          shows = refl;
          named = is;
          at_least = refl;
        }

    files-Justified : Justified cfg (dial_option fs cfg)
    unfolding dial_option
    files-Justified = elim (Option-cases (read_file cfg.ca_file)) [
      | inl bad ↦ rw (dial_option, some_files, bad) (some_files-Allowed cfg some_files, unread bad)
      | inr (pem, found) ↦ elim (Option-cases (certificates_of pem)) [
        | inl bad ↦
            rw (dial_option, some_files, found, bad)
              (some_files-Allowed cfg some_files, uncertified pem found bad)
        | inr (pool, valid) ↦ elim (Option-cases (load_key_pair cfg.cert_file cfg.key_file)) [
          | inl bad ↦
              rw (dial_option, some_files, found, valid, bad)
                (some_files-Allowed cfg some_files, unpaired bad)
          | inr (cert, pair) ↦ paired-Justified pem pool cert found valid pair
        ]
      ]
    ]

  -- The uplink dials in plain text only if the configuration allows it and names none of the three TLS files. With
  -- TLS it shows the key pair of the configured files, trusts the certificates of the CA file alone, asks for
  -- the configured name or the host of the address, and speaks at least TLS 1.3. It fails only if neither of
  -- the two can be had from the configuration and its files.
  pub dial_option-Justified : (cfg : UplinkConf) → Justified cfg (dial_option fs cfg)
  unfolding dial_option
  dial_option-Justified cfg = elim (Bool-cases (no_files cfg)) [
    | inr some_files ↦ files-Justified cfg some_files
    | inl all ↦ elim (Bool-cases cfg.insecure) [
      | inl allowed ↦
          let (ca, cert, key) = no_files-empty cfg all in
          rw (dial_option, all, allowed) (refl, ca, cert, key)
      | inr denied ↦
          rw (dial_option, all, denied)
            ((λ h. let a = h.0 in cc a), λ t m. let k = m.asked in cc (all, k))
    ]
  ]
