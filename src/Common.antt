-- ===== src/Common.antt =====
-- common.h: the operations, the limits, the error codes and the message that every process sends.
use network_file_system.Base.{ℕ, Bool, true, false, ◌&&◌, List, [], ◌==◌}

abbrev pub max_path_len : ℕ
max_path_len = 1024

abbrev pub max_data_size : ℕ
max_data_size = 8192

abbrev pub max_accessible_paths : ℕ
max_accessible_paths = 10

abbrev pub max_ss : ℕ
max_ss = 100

pub data OperationType : Type 0 where
  register_ss list_paths read_file write_file create_file delete_file : OperationType
  get_file_info copy_file ack nack stop : OperationType

pub data FileType : Type 0 where
  file_type_file file_type_dir file_type_unknown : FileType

pub data WriteMode : Type 0 where
  write_mode_sync write_mode_async : WriteMode

-- A C string: its bytes before the terminator.
abbrev pub FilePath : Type 0
FilePath = List ℕ

-- `content` is the array `data` from its start; zeros follow to its end. `data_size` is the int as the
-- unsigned number that `fwrite` takes it for. A negative `num_accessible_paths` has no message here.
pub record Message : Type 0 where
  pub operation : OperationType
  pub path : FilePath
  pub path2 : FilePath
  pub content : List ℕ
  pub data_size : ℕ
  pub error_code : ℕ
  pub write_mode : WriteMode
  pub file_type : FileType
  pub ss_ip : List ℕ
  pub ss_nm_port : ℕ
  pub ss_client_port : ℕ
  pub dest_ss_ip : List ℕ
  pub dest_ss_client_port : ℕ
  pub accessible_paths : List FilePath
  pub num_accessible_paths : ℕ

-- `memset(&m, 0, sizeof(Message))`
abbrev pub zero_message : Message
zero_message = record {
  operation = register_ss;
  path = [];
  path2 = [];
  content = [];
  data_size = 0;
  error_code = 0;
  write_mode = write_mode_sync;
  file_type = file_type_file;
  ss_ip = [];
  ss_nm_port = 0;
  ss_client_port = 0;
  dest_ss_ip = [];
  dest_ss_client_port = 0;
  accessible_paths = [];
  num_accessible_paths = 0;
}

abbrev pub success : ℕ
success = 0

abbrev pub file_not_found : ℕ
file_not_found = 1

abbrev pub file_in_use : ℕ
file_in_use = 2

abbrev pub permission_denied : ℕ
permission_denied = 3

abbrev pub invalid_path : ℕ
invalid_path = 4

abbrev pub ss_unavailable : ℕ
ss_unavailable = 5

abbrev pub network_error : ℕ
network_error = 6

abbrev pub file_exists : ℕ
file_exists = 7

abbrev pub invalid_operation : ℕ
invalid_operation = 8

abbrev pub async_write_failed : ℕ
async_write_failed = 9

abbrev pub timeout : ℕ
timeout = 10

-- The two responses that carry nothing but a code.
abbrev pub acked : Message
acked = record zero_message { operation = ack; error_code = success }

abbrev pub nacked : ℕ → Message
nacked code = record zero_message { operation = nack; error_code = code }

abbrev pub is_ack : OperationType → Bool
is_ack OperationType.ack = true
is_ack _ = false

-- `operation == ACK && error_code == SUCCESS`
abbrev pub is_success : Message → Bool
is_success r = is_ack r.operation && (r.error_code == success)
