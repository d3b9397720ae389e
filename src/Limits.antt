-- ===== src/Limits.antt =====
-- src/mnet_internal.h: the shared limits.
use mnet.Base.{ℕ, ◌*◌}

abbrev pub request_buffer_size : ℕ
request_buffer_size = 8192

abbrev pub max_headers : ℕ
max_headers = 100

abbrev pub max_header_line : ℕ
max_header_line = 4096

abbrev pub max_query_name : ℕ
max_query_name = 1024

abbrev pub max_query_value : ℕ
max_query_value = 1024

abbrev pub max_query : ℕ
max_query = 16

abbrev pub max_body_size : ℕ
max_body_size = 16 * 1024 * 1024

abbrev pub max_params : ℕ
max_params = 16

abbrev pub max_workers : ℕ
max_workers = 64

abbrev pub default_workers : ℕ
default_workers = 4

abbrev pub default_timeout : ℕ
default_timeout = 30

abbrev pub default_keep_alive_timeout : ℕ
default_keep_alive_timeout = 5

abbrev pub initial_route_capacity : ℕ
initial_route_capacity = 8
