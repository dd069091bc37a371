-- ===== src/Connection.antt =====
-- muduo/src/Connection.cpp, and the send queue of muduo/src/SubReactor.cpp. The kernel's `write` is a
-- parameter: what the call of a round answers to the bytes it is given. The loop of
-- `sendBufferedData` is on fuel; each round that goes on takes a byte off the buffer.
pub mod Stream
pub mod Talk
mod Tests
use fast_server.Prelude.{
  ℕ, zero, suc, ◌+◌, ◌*◌, min, Bool, true, false, not, ◌&&◌, List, [], ◌∷◌, ◌++◌, Option, none,
  some, ltb, ◌==◌, if◌then◌else◌, take,
}
use fast_server.Buffer.{SimpleBuffer, size, no_data, data_from, write, advance}

-- What `write` returns: a number of bytes, or -1 with EAGAIN or EWOULDBLOCK, or with another error.
pub data WriteResult : Type 0 where
  wrote : ℕ → WriteResult
  would_block : WriteResult
  errored : WriteResult

-- A connection; `reading` tells whether EPOLLIN is among its events, `queued` how often its
-- descriptor stands in the reactor's send queue, and `removed` whether the reactor dropped it.
pub record Connection : Type 0 where
  pub send_buffer : SimpleBuffer
  pub try_close : Bool
  pub closed : Bool
  pub reading : Bool
  pub removed : Bool
  pub queued : ℕ

-- `send`, with its bytes as a list; `enqueueSend` adds the descriptor to the queue.
unfoldable pub send : List ℕ → Connection → Connection
send bytes c =
    if c.try_close
    then c
    else record c { send_buffer = write bytes c.send_buffer; queued = c.queued + 1 }

abbrev pub chunk_size : ℕ
chunk_size = 1024 * 8

module _ (kernel_write : ℕ → List ℕ → WriteResult) where
  -- The loop of `sendBufferedData` from round `k` on: the bytes that the kernel took, and the buffer.
  unfoldable pub write_chunks : ℕ → ℕ → SimpleBuffer → Option (List ℕ × SimpleBuffer)
  write_chunks zero k b = none
  write_chunks (suc fuel) k b =
      let chunk = data_from b (min (size b) chunk_size) in
      elim (kernel_write k chunk) [
        | would_block ↦ some ([], b)
        | errored ↦ some ([], b)
        | wrote n ↦
            let b' = advance n b in
            let rest = write_chunks fuel (k + 1) b' in
            if n == 0
            then some ([], b)
            else if ltb 0 (size b')
            then (elim rest [ none ↦ none | some (out, b'') ↦ some (take n chunk ++ out, b'') ])
            else some (take n chunk, b')
      ]

  -- `sendBufferedData`.
  unfoldable pub send_buffered_data : ℕ → Connection → Option (List ℕ × Connection)
  send_buffered_data k c =
      if no_data c.send_buffer
      then some ([], c)
      else (elim (write_chunks (size c.send_buffer) k c.send_buffer) [
        | none ↦ none
        | some (out, b) ↦ some (out, record c { send_buffer = b })
      ])

-- `removeConnection` and `disableReadEventAndShutdown`, as the connection sees them.
abbrev pub remove_connection : Connection → Connection
remove_connection c = record c { removed = true }

abbrev pub disable_read_event_and_shutdown : Connection → Connection
disable_read_event_and_shutdown c = record c { reading = false }

unfoldable pub close : Bool → Connection → Connection
close force c =
    let c' = record c { try_close = true } in
    if not force && not (size c'.send_buffer == 0)
    then disable_read_event_and_shutdown c'
    else remove_connection (record c' { closed = true })

unfoldable pub check_need_close : Connection → Connection
check_need_close c =
    if c.try_close && no_data c.send_buffer
    then record (remove_connection c) { closed = true }
    else c
