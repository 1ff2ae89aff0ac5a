-- ===== src/Esp.antt =====
-- The error codes of ESP-IDF (`esp_err_t`) that the modelled functions return.
use portable_terminal.Base.{Bool, true, false}

pub data EspErr : Type 0 where
  esp_ok esp_fail esp_err_no_mem esp_err_invalid_arg : EspErr
  esp_err_invalid_state esp_err_not_found esp_err_timeout : EspErr

-- `err == ESP_OK`
abbrev pub is_esp_ok : EspErr → Bool
is_esp_ok esp_ok = true
is_esp_ok _ = false
