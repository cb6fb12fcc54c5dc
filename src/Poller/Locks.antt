-- ===== src/Poller/Locks.antt =====
-- What one thread does with `m_mtx` of the poller (eventpoller/eventpoller.cpp): a second lock by the
-- thread that holds it, and a release by one that does not, are undefined (`std::shared_mutex`).
use sylar_net_server_framewo.Common.Checked.{Checked, ok, undefined}

pub data Held : Type 0 where
  unheld shared exclusive : Held

abbrev pub lock_shared : Held → Checked Held
lock_shared unheld = ok shared
lock_shared shared = undefined
lock_shared exclusive = undefined

abbrev pub unlock_shared : Held → Checked Held
unlock_shared unheld = undefined
unlock_shared shared = ok unheld
unlock_shared exclusive = undefined

abbrev pub lock : Held → Checked Held
lock unheld = ok exclusive
lock shared = undefined
lock exclusive = undefined

abbrev pub unlock : Held → Checked Held
unlock unheld = undefined
unlock shared = undefined
unlock exclusive = ok unheld
