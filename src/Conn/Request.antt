-- ===== src/Conn/Request.antt =====
-- conn.go: the reader of the request (`readRequest`), `stopReadingRequest` and `stopConnLoop`.
use chrome.Base.{ℕ, ◌*◌, ◌||◌, Bool, true, ◌++◌, length, take, drop, min, leb, if◌then◌else◌}
use chrome.Conn.State.{State}

abbrev pub max_request_size : ℕ
max_request_size = 32 * 1024

abbrev pub conn_buf_size : ℕ
conn_buf_size = 8 * 1024

unfoldable pub stop_conn_loop : State → State
stop_conn_loop s = record s { loop_stop = true }

unfoldable pub stop_reading : State → State
stop_reading s = record s { pipe_expired = true; read_stop = true }

-- A read into the buffer returns `n` bytes, or all that is there if it is less, and an error or not.
unfoldable pub read_request : ℕ → Bool → State → State
unfolding stop_conn_loop
read_request n err s =
    let m = min n conn_buf_size in
    let request = s.request ++ take m s.input in
    let s' : State = record s { request = request; input = drop m s.input } in
    if s.read_done
    then s
    else if err || leb max_request_size (length request)
    then record (stop_conn_loop s') { read_done = true }
    else s'
