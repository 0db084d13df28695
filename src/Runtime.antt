-- ===== src/Runtime.antt =====
-- How the pages of dashboard/frontend run: asynchronous functions, their suspension at `await`, and
-- the browser's events. This is the language (promises, `try`, timers) and React's state as the
-- pages use them; the pages translate their functions into `Async`.
pub mod Async
pub mod World
