-- ===== src/Tsan/Calls.antt =====
-- src/tsan/tsan_rtl.c, the calls of one thread, one after the other.
pub mod Alone
pub mod First
pub mod Detected
use misan.Prelude.{ℕ, true, false, List, [], ◌∷◌, Exec, done, ◌>>=◌}
use misan.Common.Platform.{Machine}
use misan.Tsan.Runtime.{Tsan, tsan_func_entry, tsan_func_exit, tsan_read, tsan_write}
use misan.Tsan.Sync.{
  tsan_mutex_create, tsan_mutex_destroy, tsan_mutex_pre_lock, tsan_mutex_post_lock,
  tsan_mutex_pre_unlock, tsan_mutex_post_unlock,
}

-- What a thread calls.
pub data Call : Type 0 where
  func_entry : Call
  func_exit : Call
  read : ℕ → Call
  write : ℕ → Call
  mutex_create : ℕ → Call
  mutex_destroy : ℕ → Call
  pre_lock : ℕ → Call
  post_lock : ℕ → Call
  pre_unlock : ℕ → Call
  post_unlock : ℕ → Call

module _ (fuel : ℕ) (machine : Machine) (self : ℕ) where
  unfoldable pub perform : Call → Tsan → Exec Tsan
  perform func_entry s = tsan_func_entry fuel machine self s
  perform func_exit s = done [] (tsan_func_exit s)
  perform (read addr) s = tsan_read fuel machine self s addr
  perform (write addr) s = tsan_write fuel machine self s addr
  perform (mutex_create addr) s = tsan_mutex_create s addr
  perform (mutex_destroy addr) s = tsan_mutex_destroy s addr
  perform (pre_lock addr) s = tsan_mutex_pre_lock fuel machine self s addr
  perform (post_lock addr) s = tsan_mutex_post_lock fuel machine self s addr
  perform (pre_unlock addr) s = tsan_mutex_pre_unlock fuel machine self s addr
  perform (post_unlock addr) s = tsan_mutex_post_unlock fuel machine self s addr

  unfoldable pub perform_all : List Call → Tsan → Exec Tsan
  perform_all [] s = done [] s
  perform_all (c ∷ cs) s = perform c s >>= λ s'. perform_all cs s'
