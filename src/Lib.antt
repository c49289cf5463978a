-- ===== src/Lib.antt =====
-- Voltyk bot, a Telegram bot that tells its users when their electricity is planned to go off, from
-- schedules that it fetches, and when it does go off, from pings of their routers.
--
-- Parts and how they interact. The schedule of a queue is fetched through a circuit breaker
-- (bot/utils/circuit_breaker.py), parsed into periods and events (bot/services/api.py), and
-- answered from by the bot's handlers. The power monitor (bot/services/power_monitor.py) keeps for
-- each user a state in memory, which each ping advances; a change that lasts as long as a delay is
-- confirmed by a task and then told to the user; the states survive a restart in a table. The
-- scheduler (bot/services/scheduler.py) compares each queue's schedule with the snapshot of the day,
-- tells the users of changes page by page of their table, each with an image of the schedule, or
-- queues them at night for 06:00, and reminds of events.
-- Telegram is called through a token bucket (bot/utils/rate_limiter.py); what users press passes a
-- throttle (bot/middlewares/throttle.py). The loops of the process report their beats
-- (bot/utils/heartbeat.py).
--
-- Files:
-- - Prelude and its children: the numbers, lists, dictionaries in order of insertion, signed
--   numbers, stable sorting and texts that the parts share.
-- - CircuitBreaker: CircuitBreaker of bot/utils/circuit_breaker.py. `init` is __init__, `enter` and
--   `settle` are call before and after its await, `get_state`, `on_success` and `on_failure` are the
--   methods of these names. Calls: runs of callers that overlap; Trips: counting; Outage: while open.
-- - RateLimiter: TokenBucketRateLimiter of bot/utils/rate_limiter.py (`refill` and `acquire` are
--   acquire, `update_rate` is update_rate). Bounds: what it grants.
-- - Throttle: ThrottleMiddleware of bot/middlewares/throttle.py (`call` is __call__, `cleanup` and
--   `enforce_cap` are its clean-up). Capacity: the bound on its memory; Spacing: what it lets through.
-- - Maintenance: bot/middlewares/maintenance.py (`call_maintenance` is __call__) and
--   bot/db/queries/settings.py. Restored: proofs.
-- - Heartbeat: bot/utils/heartbeat.py. Staleness: what is reported.
-- - Json: the values that json.loads returns.
-- - Commits: check_source_repo_updated of bot/services/api.py. Changes: rows of checks, against a
--   server that answers as HTTP's ETags are documented.
-- - Fetch: fetch_schedule_data of bot/services/api.py; `attempts` is its inner _do_fetch. Caching: the
--   cache; Provenance: where answers come from.
-- - Schedule: bot/services/api.py from _parse_hourly_schedule to find_next_event. Periods,
--   Coverage, Hours: the periods of a day; Upcoming, Answer: the next event; Parse: a whole schedule.
-- - Entities: bot/utils/html_to_entities.py; `rounds` is the loop of html_to_entities and `round` its
--   body. Within: where entities lie; Escaped: texts that html.escape has escaped.
-- - ScheduleDb: bot/db/queries/schedule.py, its three tables as lists of rows and each statement as a
--   function of its name (`has_pending` is get_all_pending_region_queue_pairs). Rows: lemmas.
-- - Scheduler: _compute_changes and its kin of bot/services/scheduler.py. Differences: what is added
--   and removed. Comparison: the middle of _check_single_queue, which compares with the snapshots.
--   Checks: _check_single_queue around it, and the loop of _flush_pending_notifications_locked.
--   Silence, Consistency, Reported and Overnight: proofs.
-- - Reminders: _check_and_send_reminders of bot/services/scheduler.py for one pair, over
--   sent_reminders of bot/db/queries/reminders.py, and catch_up_missed_reminders. Due: the reminders
--   that a user is due, apart from the code; Once: which are sent; CatchUp: checks and catch-ups.
-- - Paging: the query with a cursor and the loop over pages that the services share (in
--   bot/db/queries/users.py and bot/services/scheduler.py). Complete, AtOnce: lemmas on what they
--   reach and leave.
-- - Retry: retry_bot_call of bot/utils/helpers.py. Attempts: how it ends.
-- - Users: the rows of bot/db/models.py that the services read, and queries of
--   bot/db/queries/users.py by their names.
-- - Broadcast: _send_schedule_notification (`send_schedule_notification`),
--   _send_notifications_to_users and _send_notifications_for_pair of bot/services/scheduler.py.
--   Passing, Everyone, Receivers: proofs.
-- - Address: is_valid_ip_or_domain of bot/utils/helpers.py, and _is_ssrf_blocked and
--   check_router_http of bot/services/power_monitor.py, on texts as lists of code points.
--   Pieces, Agreement: proofs.
-- - Charts: get_queue_source_updated_at, fetch_schedule_image (its branches `from_l1`, `from_redis`,
--   `from_generated`, `from_github`) and invalidate_image_cache of bot/services/api.py, with the Redis
--   entries of bot/services/chart_cache.py and _prerender_chart of bot/services/scheduler.py.
--   Remembered, Stale, Bounded: proofs.
-- - PingAlerts: the table ping_error_alerts of bot/db/queries/power.py and
--   _send_daily_ping_error_alerts of bot/services/power_monitor.py. Touched, OnePass: proofs.
-- - PowerMonitor: the data of bot/services/power_monitor.py (_get_user_state, _mark_dirty).
--   Machine: _check_user_power (`check_user_power`, with its branches `first_check`, `unchanged` and
--   `changed`), _confirm_state and _confirm_restored (`wake`). Memory: _evict_stale_entries, the
--   eviction in _check_all_ips, the end of _save_all_user_states (`after_save`). Notice:
--   _handle_power_state_change and _format_exact_duration. Restart: _save_all_user_states, the
--   statements of bot/db/queries/power.py on user_power_states, _restore_user_states and
--   _restart_pending_debounce_tasks. Sweep: _check_all_ips (`load` is its loop over pages).
--   Interleaved: the orders of gathered tasks. Hearing, Sweeping, Cycles: proofs about it. Validity:
--   the invariant. Debounce, Flapping, Confirming, Runs, Eviction, Saving, Cooldown, Restoring,
--   SavedRows, Reloading and Resuming: proofs.
--
-- Units and bounds. Times are natural numbers: microseconds or seconds, as the file's comment says;
-- floats are scaled to whole numbers, and where the source subtracts, the model writes out what
-- happens below zero. Python's integers have no width. Telegram ids, which the source keeps as
-- strings, are numbers. Loops are recursions on the list they go through (a round of html_to_entities
-- that takes several characters leaves a number of them to be passed). The decimal digits of n
-- run on fuel, n + 1, as each digit leaves less. The loops over pages run on fuel: one more than the
-- number of rows they should reach is enough, which is proved, as each full page leaves fewer.
--
-- Concurrency. The code is cooperative: between two awaits nothing else runs. A call of the breaker
-- is cut at its await, so that calls overlap. A check of a user is one step, in which what the ping
-- and the database answer enters as an argument; the checks and the tasks that wake follow one another
-- in any order. A cancellation of a task takes effect at once.
--
-- Not modelled: the database engine, Telegram, the HTTP client, the tz data (parameters where a
-- result of theirs is used), logs and metrics, the keyboards and the dialogues of the handlers, the
-- drawing of charts. Of the power monitor the loops and the editing of notices are left out; of the
-- schedules the texts built from them; of the scheduler the messages of a reminder and the loops. A
-- failure of a database statement within a checker, a flush, a handling or a sending ends it, and is
-- left out; one for a page of monitored users is modelled.
pub mod Prelude
pub mod CircuitBreaker
pub mod RateLimiter
pub mod Throttle
pub mod Heartbeat
pub mod Json
pub mod Schedule
pub mod Commits
pub mod Fetch
pub mod PowerMonitor
pub mod Scheduler
pub mod ScheduleDb
pub mod Entities
pub mod Paging
pub mod Reminders
pub mod Retry
pub mod Users
pub mod Broadcast
pub mod Address
pub mod Charts
pub mod PingAlerts
pub mod Maintenance
