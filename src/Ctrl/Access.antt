-- ===== src/Ctrl/Access.antt =====
-- The configuration of the access point in mm_halow_ctrl.c, and the arguments that are made of it.
-- MMWLAN_SSID_MAXLEN and MMWLAN_PASSPHRASE_MAXLEN are morselib's, the parameter `max`.
use mm_halow_driver.Base.{ℕ, Bool, true, List, [], ◌==◌, if◌then◌else◌, length, take, min}

-- MM_HALOW_SEC_OPEN, MM_HALOW_SEC_OWE and MM_HALOW_SEC_SAE
abbrev pub sec_open : ℕ
sec_open = 0

abbrev pub sec_owe : ℕ
sec_owe = 1

abbrev pub sec_sae : ℕ
sec_sae = 2

-- The fields `ap_auth`, `ap_ssid` and `ap_key` with their lengths, and `ap_chan_num`.
pub record ApConfig : Type 0 where
  pub auth : ℕ
  pub ssid : List ℕ
  pub key : List ℕ
  pub chan_num : ℕ

-- The configuration that mm_halow_state starts with.
pub initial_access : ApConfig
initial_access = record { auth = sec_sae; ssid = []; key = []; chan_num = 0 }

-- mm_halow_wifi_ap_set_ssid
pub ap_set_ssid : ℕ → List ℕ → ApConfig → ApConfig
ap_set_ssid max buf c = record c { ssid = take (min (length buf) max) buf }

-- mm_halow_wifi_ap_set_password
pub ap_set_password : ℕ → List ℕ → ApConfig → ApConfig
ap_set_password max buf c = record c { key = take (min (length buf) max) buf }

-- mm_halow_wifi_ap_set_auth
pub ap_set_auth : ℕ → ApConfig → ApConfig
ap_set_auth auth c = record c { auth = auth }

-- mm_halow_wifi_ap_set_channel
pub ap_set_channel : ℕ → ApConfig → ApConfig
ap_set_channel chan c = record c { chan_num = chan }

-- mm_halow_wifi_ap_get_ssid
pub ap_get_ssid : ApConfig → ℕ × List ℕ
ap_get_ssid c = (length c.ssid, c.ssid)

-- mm_halow_wifi_ap_get_auth
pub ap_get_auth : ApConfig → ℕ
ap_get_auth c = c.auth

-- struct mmwlan_ap_args, as far as mm_halow_ap_enable sets it; zero is its default for the operating
-- class and the channel, and stands for those of the station.
pub record ApArgs : Type 0 where
  pub op_class : ℕ
  pub s1g_chan_num : ℕ
  pub ssid : List ℕ
  pub security_type : ℕ
  pub passphrase : List ℕ
  pub pmf_disabled : Bool
  pub async_start : Bool

-- The arguments that mm_halow_ap_enable makes, on an operating class and a channel.
unfoldable pub ap_args : ApConfig → ℕ → ℕ → ApArgs
ap_args c class chan = record {
  op_class = class;
  s1g_chan_num = chan;
  ssid = c.ssid;
  security_type = c.auth;
  passphrase = if c.auth == sec_sae then c.key else [];
  pmf_disabled = c.auth == sec_open;
  async_start = true;
}
