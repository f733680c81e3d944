-- ===== src/Platform/Wifi/Config.antt =====
-- The two configurations that src/platform/wifi.rs hands to ESP-IDF.
use bark_esp.Base.{
  ℕ, ◌-◌, ◌≤◌, ◌≡◌, ap, ◌∙◌, List, ◌++◌, Bool, true, false, length, take, replicate, arith,
  length-append, length-take, length-replicate, take-all,
}
use bark_esp.Platform.Wifi.{fixed}
use bark_esp.Platform.Wifi.Setup.{fixed_lem}

-- The constants of ESP-IDF that they refer to, and the lengths of its arrays.
pub record Constants : Type 0 where
  pub tx_buffer_type : ℕ
  pub nano_format_enabled : ℕ
  pub default_rx_ba_win : ℕ
  pub softap_beacon_max_len : ℕ
  pub mgmt_sbuf_num : ℕ
  pub feature_caps : ℕ
  pub sta_disconnected_pm_enabled : Bool
  pub espnow_max_encrypt_num : ℕ
  pub init_config_magic : ℕ
  pub all_channel_scan : ℕ
  pub connect_ap_by_signal : ℕ
  pub auth_wpa2_psk : ℕ
  pub ssid_len : ℕ
  pub password_len : ℕ

abbrev pub static_rx_buf_count : ℕ
static_rx_buf_count = 10

abbrev pub dynamic_rx_buf_count : ℕ
dynamic_rx_buf_count = 10

abbrev pub static_tx_buf_count : ℕ
static_tx_buf_count = 10

abbrev pub dynamic_tx_buf_count : ℕ
dynamic_tx_buf_count = 10

abbrev pub ampdu_enable : ℕ
ampdu_enable = 0

-- `wifi_init_config_t`, without its tables of functions
pub record InitConfig : Type 0 where
  pub static_rx_buf_num : ℕ
  pub dynamic_rx_buf_num : ℕ
  pub tx_buf_type : ℕ
  pub static_tx_buf_num : ℕ
  pub dynamic_tx_buf_num : ℕ
  pub cache_tx_buf_num : ℕ
  pub csi_enable : ℕ
  pub ampdu_rx_enable : ℕ
  pub ampdu_tx_enable : ℕ
  pub amsdu_tx_enable : ℕ
  pub nvs_enable : ℕ
  pub nano_enable : ℕ
  pub rx_ba_win : ℕ
  pub wifi_task_core_id : ℕ
  pub beacon_max_len : ℕ
  pub mgmt_sbuf_num : ℕ
  pub feature_caps : ℕ
  pub sta_disconnected_pm : Bool
  pub espnow_max_encrypt_num : ℕ
  pub magic : ℕ

unfoldable pub init_config : Constants → InitConfig
init_config c = record {
  static_rx_buf_num = static_rx_buf_count;
  dynamic_rx_buf_num = dynamic_rx_buf_count;
  tx_buf_type = c.tx_buffer_type;
  static_tx_buf_num = static_tx_buf_count;
  dynamic_tx_buf_num = dynamic_tx_buf_count;
  cache_tx_buf_num = 0;
  csi_enable = 1;
  ampdu_rx_enable = ampdu_enable;
  ampdu_tx_enable = ampdu_enable;
  amsdu_tx_enable = ampdu_enable;
  nvs_enable = 0;
  nano_enable = c.nano_format_enabled;
  rx_ba_win = c.default_rx_ba_win;
  wifi_task_core_id = 0;
  beacon_max_len = c.softap_beacon_max_len;
  mgmt_sbuf_num = c.mgmt_sbuf_num;
  feature_caps = c.feature_caps;
  sta_disconnected_pm = c.sta_disconnected_pm_enabled;
  espnow_max_encrypt_num = c.espnow_max_encrypt_num;
  magic = c.init_config_magic;
}

-- `wifi_sta_config_t`, without the fields that are zeroed; the threshold of the signal is minus the
-- number here.
pub record StaConfig : Type 0 where
  pub ssid : List ℕ
  pub password : List ℕ
  pub scan_method : ℕ
  pub bssid_set : Bool
  pub bssid : List ℕ
  pub channel : ℕ
  pub listen_interval : ℕ
  pub sort_method : ℕ
  pub authmode : ℕ
  pub minus_rssi : ℕ
  pub pmf_capable : Bool
  pub pmf_required : Bool
  pub sae_pwe_h2e : ℕ
  pub failure_retry_cnt : ℕ

unfoldable pub sta_config : Constants → (ssid password : List ℕ) → StaConfig
sta_config c ssid password = record {
  ssid = fixed c.ssid_len ssid;
  password = fixed c.password_len password;
  scan_method = c.all_channel_scan;
  bssid_set = false;
  bssid = replicate 6 0;
  channel = 0;
  listen_interval = 3;
  sort_method = c.connect_ap_by_signal;
  authmode = c.auth_wpa2_psk;
  minus_rssi = 99;
  pmf_capable = true;
  pmf_required = false;
  sae_pwe_h2e = 3;
  failure_retry_cnt = 1;
}

fixed-length : (n : ℕ) (s : List ℕ) → length (fixed n s) ≡ n
fixed-length n s = omega (
  arith,
  ap length (fixed_lem n s),
  length-append (take n s) (replicate (n - length s) 0),
  length-take n s,
  length-replicate {A = ℕ} (n - length s) 0,
)

-- The name of the network and the password fill the arrays of ESP-IDF exactly; what fits in one is
-- in it whole, with zeros behind it.
sta_config-texts :
    (c : Constants) (ssid password : List ℕ)
    → let s = sta_config c ssid password in
      (length s.ssid ≡ c.ssid_len)
      × (length s.password ≡ c.password_len)
      × (length ssid ≤ c.ssid_len → s.ssid ≡ ssid ++ replicate (c.ssid_len - length ssid) 0)
      × (length password ≤ c.password_len
          → s.password ≡ password ++ replicate (c.password_len - length password) 0)
unfolding sta_config
sta_config-texts c ssid password = (
  fixed-length c.ssid_len ssid,
  fixed-length c.password_len password,
  λ le.
      fixed_lem c.ssid_len ssid
      ∙ ap (λ l. l ++ replicate (c.ssid_len - length ssid) 0) (take-all c.ssid_len ssid le),
  λ le.
      fixed_lem c.password_len password
      ∙ ap (λ l. l ++ replicate (c.password_len - length password) 0)
          (take-all c.password_len password le),
)
