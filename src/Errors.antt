-- ===== src/Errors.antt =====
-- src/utils/error.cpp and includes/error.h: the error handler that every component owns.
use real_time_data_transfer.Base.{String, Bool, true, false}

pub record Error : Type 0 where
  pub is_error_flag : Bool
  pub error_msg : String
  pub owner_identifier : String

-- The constructor.
abbrev pub new_error : String → Error
new_error owner = record { is_error_flag = false; error_msg = ""; owner_identifier = owner }

abbrev pub set_error : String → Error → Error
set_error msg e = record e { error_msg = msg; is_error_flag = true }

abbrev pub get_error : Error → String
get_error e = e.error_msg

abbrev pub is_error : Error → Bool
is_error e = e.is_error_flag

abbrev pub clear_error : Error → Error
clear_error e = record e { is_error_flag = false; error_msg = "" }

-- The accessor that every component offers: the message is handed over and removed.
abbrev pub pull_error : Error → String × Error
pull_error e = (get_error e, clear_error e)
