-- ===== src/Lib.antt =====
-- mlai-trade: a command-line trader that syncs market data, trains models, trades positions
-- automatically, and reports the taxes on them. This library models the parts that decide: when a
-- position is sold, which process may run an update, which steps a pipeline still has to run, what tax is
-- due, which requests the API admits and from whom, what may be bought, when the daemon refreshes, and which
-- daily bars are fetched.
--
-- The parts and their files (paths from the repository's root):
--   Common            the shared names: tests on numbers, lists, and integers over the native numbers.
--   Exit              src/auto.rs, `evaluate_confirmed_exit` with its configuration and state. The
--                     automatic cycle stores the state of every evaluation and reads it back in the next
--                     one (`evaluate_cycles`). State has the data, Streak the stop-loss,
--                     Conditions and TakeProfit the rest.
--   Lock              src/update_lock.rs: `acquire`, `release` and the signal watcher over a machine's
--                     lock file and the process's own mark, with the file operations that fail. Guard has the
--                     single call, System and Sequence several processes one call at a time, Race several processes one file access at a time.
--   Resume            src/pipeline_resume.rs and the `run_step!` loops of src/main.rs: the checkpoint of
--                     a pipeline, with the failures of its file operations as data and the steps that
--                     `ml.skip_steps` names. Open has the opening, Pipeline a run of the steps, Attempts several runs.
--   Tax/Brackets      src/tax.rs: the validation of brackets and the taxes and rates read from them.
--   Tax/Positions     the fills, lots and realized positions of src/tax.rs.
--   Tax/Fifo          `load_provider_fill_positions` with the bound of its query. Matches has the sale of
--                     one fill in two periods, Periods the whole, Conservation the quantities.
--   Tax/ShareLots     the lots of the UK share matching and `match_buy_lots_to_sell`.
--   Tax/ShareMatching `load_gb_share_matching_positions` for the lots of one key.
--   Tax/Netting       the totals of the two terms and `net_taxable`.
--   Tax/Brazil        `brazil_tax_computation`. Months has the monthly buckets, Balance what is taxed.
--   Api               src/api.rs: the counters of the request and stream guards and the rate window.
--                     Counter has the guards and the threads that compete for a counter, Rate sequences of requests.
--   Remote            src/api.rs: Text and Bits have the texts and binary digits that the others share,
--                     Session the tokens and credentials of remote clients, Address the trusted proxies
--                     and client addresses, Compression the choice of a response coding, Dns the names in DNS messages.
--   Calendar          src/auto.rs: holidays, market days and trading windows, and the walk back of src/main.rs.
--   Buying            src/auto.rs: the cash-only guard (Guard), the buy loop (Orders), and both behind
--                     Calendar's windows and the age of the predictions in a cycle (Cycle).
--   Selling           src/auto.rs: the sell loop of a cycle, over Exit, Calendar's windows and the count of
--                     day trades. Allowed has its orders.
--   Compliance        src/compliance.rs: the wash-sale numbers of the countries.
--   WashSales         src/auto.rs: the wash-sale tracker. Windows has one insertion, Lots the loop over a
--                     sale's lots, Blocks and Again a run over the fills and a second one.
--   Candidates        src/auto.rs `find_buy_candidates` and its guards, and the blocked symbols of
--                     src/config.rs. Options has the option symbols, Chosen and Safety the result, and
--                     Compliant puts it behind a run of WashSales; Buying's loop goes over candidates by number.
--   Holdings          src/auto.rs `reconcile_open_positions_with_provider`: Turns has the ways of one
--                     position, Rows and InStep the table and the memory, Shares their totals, and Blocked
--                     the exits that go into WashSales' tracker.
--   Origin            src/origin.rs: keys, overrides and the classification of orders, which Holdings combines.
--   Schedule          src/daemon.rs: when the daily refresh is due and what a closed market means.
--   Daemon            src/daemon.rs `cmd_run`: the rounds of the loop, over Schedule and Calendar's weekends.
--   Models            src/ml.rs: the weight grid, the row stride and the decision trees.
--   Scan              src/main.rs: `collapse_missing_dates` and the plan of one symbol's requests.
--
-- Numbers: a price, an amount of money, a quantity and a rate are whole numbers of a small unit that the
-- file names; the rounding of f64 is not modelled. A moment is a number of seconds and a date a number
-- of days. The machine-width counters of the source stay far below their bounds and are plain numbers;
-- the i64 sum of Compliance, whose summand the user sets, wraps around as in a release build.
--
-- Fuel: the loop of Tax/Fifo runs on one turn more than there are lots, since each turn ends the sale or
-- uses up a lot; so does the loop of WashSales. The loop that adds business days runs on three turns for
-- each day, the walk back to an open date on the days to some open date in front, and the loop over
-- a decision tree on one turn more than there are nodes; theorems say that this is enough. All other loops follow a list or count down.
--
-- Parameters: the text forms of times, the percentage of a gain, the calendar's month of a date, which
-- process ids are alive, whether a file operation succeeds, the dates of the chrono crate with the laws of
-- weekdays, the HMAC and base64 crates, the reading of IP addresses and doubles, and what broker, quotes and
-- database answer.
--
-- Not modelled: SQL but for the selections that Candidates, Holdings and WashSales write out, HTTP, TLS, the provider clients, the training of the models and all arithmetic on
-- doubles beyond comparison, the configuration files, the services, the daemon's signals and processes,
-- and what is printed or logged, but for the lock's journal.
pub mod Api
pub mod Buying
pub mod Calendar
pub mod Candidates
pub mod Common
pub mod Compliance
pub mod Daemon
pub mod Exit
pub mod Holdings
pub mod Lock
pub mod Models
pub mod Origin
pub mod Remote
pub mod Resume
pub mod Scan
pub mod Schedule
pub mod Selling
pub mod Tax
pub mod WashSales
