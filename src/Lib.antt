-- ===== src/Lib.antt =====
-- The verification library of the Green Garden API, the shop backend under app/: a FastAPI
-- application over PostgreSQL whose services (app/features/*/service.py) hold the rules.
--
-- How the parts interact. A request opens one session (app/core/database.py). A checkout
-- (app/features/orders/service.py, `create_order`) finds or creates the customer by phone number
-- (app/features/customers/service.py), locks the plants, prices the lines, draws an order number,
-- takes the stock and queues a notification, in one transaction. `update_order_status` moves the
-- order along its pipeline and gives the stock back on the way into `cancelled`. An order that is
-- paid by bank transfer has a reference; SePay reports each transaction to a webhook
-- (app/features/payments/service.py), which finds the order by that reference and marks it paid.
-- The storefront's forms pass the checks of app/shared/bot_protection/service.py first. The panel's
-- admins log in with app/features/auth/service.py, whose tokens stand for an account of
-- app/features/admins/service.py, and change the catalogue with app/features/plants/service.py,
-- which keeps the old slugs of a plant so that its old addresses still find it.
--
-- Which file models which part.
--   Prelude           Boolean tests, lists and texts over the native numbers; Prelude/Digits prints
--                     and reads decimal numbers.
--   Core/Security     app/core/security.py: passwords, addresses and tokens.
--   Core/Errors       app/core/exceptions.py and the exceptions that the services declare.
--   Core/Text         app/core/text.py; its children prove Slug, Phone and Escape.
--   Database/Models   the rows of every features/*/models.py, and the database as lists of rows.
--   Database/Session  a request's session as explicit state: the committed database, the session's
--                     view and the messages sent. An operation maps this state to a result or an
--                     exception and the next state. Database/Session/Rules holds the rules for
--                     chains of operations.
--                     Database/Session/Invariants those for properties that operations keep, and
--                     Database/Keys is about tables whose rows have a key of their own.
--   Listing           the filters, the order and the pages that the listings of the services share;
--                     Grouping is `GROUP BY` and the dicts filled from its rows.
--   Customers         app/features/customers/service.py, its listing in Customers/Listing.
--   Orders/Pricing, Orders/Number, Orders/Stock, Orders/Admission, Orders/Create, Orders/Status
--                     app/features/orders/service.py: prices, order numbers, quantities per plant,
--                     the checks of a checkout, `create_order` and `quote_order`, and
--                     `update_order_status`; their children hold the laws. Orders/Histories puts
--                     requests in sequence, and Orders/Overlap lets two of them read one order.
--                     Orders/Listing is `list_orders`.
--   Payments          app/features/payments/service.py: the webhook; Payments/Matching finds
--                     references in a text, Payments/Transfer is `bank_transfer_info`, and
--                     Payments/Ledger puts deliveries in sequence.
--   Plants            app/features/plants/service.py: Plants/Changes the arguments of its
--                     operations, Plants/Catalogue the listing, the search and the lookup by slug,
--                     Plants/Images the media; Plants/Slugs, Plants/Stages, Plants/Renaming and
--                     Plants/Lookup are about unique slugs and SKUs and the history of slugs.
--   Categories        app/features/categories/service.py.
--   Notifications     app/features/notifications/service.py.
--   Reviews           app/features/reviews/service.py.
--   Auth, Admins      app/features/auth/service.py and app/features/admins/service.py;
--                     Admins/Standing and Admins/Login are about locking oneself out and logging in.
--   Overview          app/features/overview/service.py, its records in Overview/Stats, dates in
--                     Overview/Calendar, the chart in Overview/Series and the counts per status
--                     in Overview/Laws.
--   Chat/Dsml         app/features/chat/dsml.py: the markup of tool calls that a chat's stream must not
--                     show. Chat/Dsml/Runs and Chat/Dsml/Growth are about markers with more text
--                     behind, Chat/Dsml/Search, Chat/Dsml/Holding and Chat/Dsml/Stream about a
--                     text in chunks.
--   BotProtection     app/shared/bot_protection/service.py.
--   Tests             a small shop and runs on it.
--
-- Conventions. A Python function is a definition of the same name. UUIDs are numbers, times are
-- numbers of microseconds (the clock of a JWT counts seconds), a `str` is the list of its code
-- points. Amounts of the columns `Numeric(12, 2)` are counted in hundredths, so rounding to two
-- digits changes none of them; the webhook's amount keeps its own scale until it is stored. What the
-- environment decides is a record `Env`: the clock, the identifiers that are drawn, and whether the
-- database accepts what is flushed or committed. The items of an order stand in its row. Theorems
-- that need an identifier to be new say so. The delivery fee of a subtotal of exactly 500,000 VND,
-- which the code waives and about which the repository's documents and tests disagree, is modelled
-- as in the code, and the theorems on the fee leave it open.
--
-- Fuel. The loop of `_generate_order_number` runs on fuel, one round more than the number of orders
-- of the day, and printing a number on one more than the number; both are enough, which is proved.
-- No other definition needs fuel: the loop of `_load_revenue_by_day` counts the days that are left.
--
-- Parameters. The case mapping of Unicode (with its law on ASCII), its letters and digits,
-- `urlencode`, which no theorem looks into, PostgreSQL's ILIKE and its collation, Argon2, JWT, the
-- text of a UUID, and the rounding of a quotient of floats to one decimal. Theorems that rely on
-- what one of them documents have it as a hypothesis.
--
-- Not modelled. Row locks and concurrent sessions: a history is a sequence of whole requests, and
-- Orders/Overlap alone hands a request an order that was read earlier. The vector database to which
-- plants are mirrored, the routers and request models, cookies, the HTTP call to the storefront,
-- rate limits per address, the rest of the chat and its knowledge base, metrics, logs and migrations.
pub mod Prelude
pub mod Core
pub mod Database
pub mod Customers
pub mod Orders
pub mod Payments
pub mod Categories
pub mod Notifications
pub mod Listing
pub mod Grouping
pub mod Plants
pub mod Reviews
pub mod Chat
pub mod BotProtection
pub mod Overview
pub mod Auth
pub mod Admins
pub mod Tests
