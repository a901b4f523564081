-- ===== src/Completion/Resumption.antt =====
-- When a coroutine that awaits a result is resumed.
use asio_http.Base.{
  ℕ, ◌≡◌, sym, ◌∙◌, true, false, Option, none, some, List, [], ◌∷◌, ◌++◌, append-nil, append_assoc,
}
use asio_http.Manager.{HttpRequestResult}
use asio_http.Completion.{
  SharedInfo, shared_info, await, await_ready, await_suspend, complete, resume, await_resume,
}

-- What happens to the shared information, from the coroutine and from the executor.
pub data Event : Type 0 where
  awaited : ℕ → Event
  completed : HttpRequestResult → Event

unfoldable pub happen : List Event → SharedInfo → SharedInfo
unfolding await complete
happen [] info = info
happen (awaited coro ∷ events) info = happen events (await coro info)
happen (completed result ∷ events) info = happen events (complete result info)

-- Each result that arrives while a coroutine is suspended resumes the last one suspended; a result that
-- arrives before is lost.
abbrev pub resumptions : Option ℕ → List Event → List (ℕ × HttpRequestResult)
resumptions suspended [] = []
resumptions suspended (awaited coro ∷ events) = resumptions (some coro) events
resumptions none (completed result ∷ events) = resumptions none events
resumptions (some coro) (completed result ∷ events) =
    (coro, result) ∷ resumptions (some coro) events

abbrev holding : Option ℕ → HttpRequestResult → List (ℕ × HttpRequestResult) → SharedInfo
holding none result resumed = record {
  coro = none;
  has_handle = false;
  result = result;
  has_result = false;
  resumed = resumed;
}
holding (some coro) result resumed = record {
  coro = some coro;
  has_handle = true;
  result = result;
  has_result = false;
  resumed = resumed;
}

happen-holding :
    (events : List Event) (suspended : Option ℕ) (result : HttpRequestResult)
    (resumed : List (ℕ × HttpRequestResult))
    → (happen events (holding suspended result resumed)).resumed
      ≡ resumed ++ resumptions suspended events
unfolding happen await await_ready await_suspend complete resume await_resume
happen-holding [] none result resumed = sym (append-nil resumed)
happen-holding [] (some coro) result resumed = sym (append-nil resumed)
happen-holding (awaited coro ∷ events) none result resumed =
    happen-holding events (some coro) result resumed
happen-holding (awaited coro ∷ events) (some old) result resumed =
    happen-holding events (some coro) result resumed
happen-holding (completed new ∷ events) none result resumed = happen-holding events none new resumed
happen-holding (completed new ∷ events) (some coro) result resumed =
    happen-holding events (some coro) new (resumed ++ ((coro, new) ∷ []))
    ∙ append_assoc resumed ((coro, new) ∷ []) (resumptions (some coro) events)

-- From new shared information on, a coroutine is resumed with a result exactly if the result arrives
-- after a coroutine has awaited it, and then it is the one that awaited last; a result that arrives
-- before resumes none, also not the coroutine that awaits it later.
pub happen-resumptions :
    (events : List Event) → (happen events shared_info).resumed ≡ resumptions none events
happen-resumptions events = happen-holding events none shared_info.result []
