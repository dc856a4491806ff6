-- ===== src/Lib.antt =====
-- UniLLM's web console (unillm/web/, TypeScript), modelled by hand from its source.
--
-- The console is a Next.js application in front of the UniLLM gateway. Most pages go through one
-- of two clients, which add the token of the local storage to each request and turn answers into
-- values or errors; the middleware forwards the requests to the gateway. The pages hold React
-- state, load it through the clients when they open, and change it in handlers. The texts come from
-- a catalog that the locale selects, but for those of the documentation page.
--
-- Files, and what they model (paths from the root of the repository):
-- - Net: the browser, `fetch` and its replies, as far as the console uses them.
-- - Api: unillm/web/src/lib/api.ts, with `fetchAPI` as `fetch_api` and each call under its own
--   name. Api/Token says what one call does, Api/Trace what sequences of calls do, Api/Automaton
--   follows the stored token through them, Api/Keeping has what both clients keep and send of it.
-- - AdminApi: unillm/web/src/lib/admin-api.ts, with `adminFetch` as `admin_fetch`. AdminApi/Agree
--   relates the two clients, AdminApi/Calls lists the calls.
-- - Middleware: unillm/web/src/middleware.ts. Middleware/Paths is about the paths it forwards.
-- - I18n: unillm/web/src/lib/i18n/index.tsx and locales.ts; I18n/Shape, EnSite, EnConsole, ZhSite,
--   ZhConsole and Catalogs hold the two catalogs of unillm/web/src/lib/i18n/messages/.
--   I18n/Persistence is about the stored locale.
-- - Catalog: the model list as unillm/web/src/app/page.tsx, models/page.tsx and calculator/page.tsx
--   share it.
-- - Marketplace: unillm/web/src/app/models/page.tsx; its children are about the filters, the vendor
--   menu, the subtitle and the cards.
-- - Playground: unillm/web/src/app/playground/page.tsx, as a state machine with an event for each
--   thing the user or the network can do; Playground/Stream is the reader loop of `handleSend`.
--   Playground/Cuts is about how the stream is cut, Dialogue and Turns about all sequences of
--   events, Choice about the chosen model, Exchange about one question and its answer, Progress
--   about the next one. Playground/Lists is `loadModels` with its requests.
-- - Calculator: unillm/web/src/app/calculator/page.tsx; UsageChart:
--   unillm/web/src/components/UsageChart.tsx; both over the numbers of Double.
-- - Together: `Promise.all` over five calls, for Dashboard (unillm/web/src/app/dashboard/page.tsx)
--   and Admin (unillm/web/src/app/admin/page.tsx), with the answers in the order of the calls.
--   Together/Arrivals is the same with the answers in any order and the user at work in between, as
--   Dashboard/Arrivals and Admin/Arrivals use it; Marks, Orders and Endings hold what the two share in proofs.
--   Dashboard/Handlers and Outcomes, and Admin/Forms and Switches, are about the handlers,
--   Dashboard/Mirror and Admin/Mirror about all of them on a server that honours a token (Admin/Service).
-- - Login: unillm/web/src/app/login/page.tsx; Status: unillm/web/src/app/status/page.tsx, with
--   Status/Overlaps for polls whose answers take longer than the interval.
-- - Layout: unillm/web/src/app/layout.tsx and providers.tsx, the frame of every page.
-- - Header: unillm/web/src/components/SiteHeader.tsx, with its markup in Header/View; Preferences:
--   ThemeToggle.tsx and LocaleSwitcher.tsx beside it, which PreferencesBar.tsx puts together, with the
--   markup of all three in Preferences/View; RecentLogs: RecentLogs.tsx.
-- - Docs: unillm/web/src/app/docs/page.tsx, with its texts line by line in Docs/Samples, Others,
--   Basics, Streams, Tools and Limits. Docs/Markdown is `MarkdownContent` and Docs/Inline is
--   `renderInline`; the lines from `i` on are a list, the text from `lastIndex` on is a string.
--   Docs/Spans, Pieces, Loop, Print and Sections are about the inline spans, their reading from the text,
--   the loop over the lines, the reading of printed blocks, and what the buttons show.
-- - Markup: the elements of JSX, as a row of nodes with attributes and events. Each page's markup is in
--   a module View under it (Panels for the tabs of Dashboard and Admin, Admin/Parts for the small
--   components, Home and Home/Intro for unillm/web/src/app/page.tsx), with one function per component or
--   part of a page, and in Docs/Blocks for the blocks of a text; Markup/Clicks says what a view offers and says, and Controls and Cards apply it.
-- - Journeys: the parts together. Journeys/Routes takes the requests of the clients through the middleware,
--   Journeys/Access goes from the login form to the dashboard and out again when the token has expired.
-- - Prelude: names, helpers and lemmas that all of them share. Tests: the theorems on concrete
--   inputs.
--
-- State is passed explicitly: a handler takes the state of its page and a `Session` (browser,
-- server, requests sent so far) and returns both. An awaited call that throws returns `err` with
-- the message of the error; an error that no handler catches is recorded in `unhandled` of the
-- page.
--
-- What is not code of the repository is a parameter: the server and the JSON values it sends
-- (`Host`), what a page reads of such a value (`read`, with `none` for a falsy member),
-- `JSON.parse` of a data line with the member that is taken from it (`content_of`), the URL class
-- (`resolve`, `host_of`), `toLowerCase` (`to_lower`), the theme that next-themes keeps, the texts
-- of dates and numbers (`number_text`, `locale_text`, `date_text`), and the numbers of JavaScript
-- (`Double`, with the facts of IEEE 754 that are used). Answers are JSON objects. Two modules assume
-- more of the server, as a record: `KeyService` and `AdminService` say that it grants what the page reads
-- to requests that bear a token it honours, answers 401 to those that bear none, as `JWTAuth` of
-- unillm/api/middleware/auth.go does, that it lists what it has, and that a request
-- whose granting answer does not arrive changes nothing.
--
-- Bounds. Loops of the source run over lists and are structural recursion here. Three take fuel.
-- `show_nat n`, the decimal notation of a number, gives `suc n` steps, and a number has at most
-- that many digits. `blocks_of` gives as many rounds as there are lines, and each round takes a
-- line; `render_inline` gives as many as there are characters, and each match takes some.
-- `Promise.all`: all five requests are sent first, with the headers of the moment of the call. In
-- `load_data` and `load_all` the answers are then taken in the order of the calls. In `await_all` they
-- come in any order, each of the five once, and the user may type and change the tab between
-- two of them. A reload that a handler starts and does not await is run to its end before the next
-- handler. The chunks of a stream are decoded text.
--
-- Not modelled: the attributes `key` and `ref`, the build files and style sheets, exceptions of the
-- local storage, two reloads of one page at a time, and the gateway itself, which is written in Go.
pub mod Prelude
pub mod Net
pub mod Markup
pub mod Api
pub mod AdminApi
pub mod Middleware
pub mod I18n
pub mod Double
pub mod Catalog
pub mod Home
pub mod Marketplace
pub mod Playground
pub mod Calculator
pub mod UsageChart
pub mod Together
pub mod Layout
pub mod Journeys
pub mod Login
pub mod Status
pub mod Dashboard
pub mod Admin
pub mod Header
pub mod Preferences
pub mod RecentLogs
pub mod Docs
mod Tests
