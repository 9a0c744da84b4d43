-- ===== src/AsgiRouter.antt =====
-- adapters/asgi/routing.py: path templates, the routes built from them, and the router.
-- `Template` and `Pattern` are the template syntax and the expressions that it compiles to;
-- `Table` is the router with its table of static paths; the proofs are in the other modules.
mod Tests
pub mod Template
pub mod Pattern
pub mod Static
pub mod Invariant
pub mod Order
pub mod Table
