-- ===== src/Tests.antt =====
-- Concrete inputs: each theorem applied to one, and runs of the definitions.
mod Toy
mod Balancers
mod Filters
mod Middlewares
mod Services
mod Bundles
mod Deployments
mod Uris
mod Servers
mod Worlds
mod Schedules
mod Executors
mod Startups
